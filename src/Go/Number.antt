-- ===== src/Go/Number.antt =====
-- The parts of Go's `strconv` that the SDK uses: `FormatInt` and `ParseInt` in base ten, `Atoi`,
-- `FormatBool` and `ParseBool`.
pub mod Bounds
use Prim.Native.Char.{Char}
use Prim.Native.String.{◌++◌}
use ff_golang_server_sdk.Common.{
  ℕ, zero, suc, ◌+◌, ◌-◌, ◌*◌, ◌/◌, ◌%◌, ◌^◌, String, ◌≡◌, refl, Bool, true, false, ◌&&◌, ◌||◌,
  Option, none, some, List, [], ◌∷◌, ltb, leb, eqb, ◌==◌, if◌then◌else◌,
}
use ff_golang_server_sdk.Common.Int.{ℤ, pos, negsuc, sub_ℕ}
use ff_golang_server_sdk.Go.Text.{codes}

digit : ℕ → Char
digit d =
    if eqb d 0
    then "0"
    else if eqb d 1
    then "1"
    else if eqb d 2
    then "2"
    else if eqb d 3
    then "3"
    else if eqb d 4
    then "4"
    else if eqb d 5
    then "5"
    else if eqb d 6
    then "6"
    else if eqb d 7
    then "7"
    else if eqb d 8
    then "8"
    else "9"

-- The digits of `n` before `rest`; `n` has at most `n + 1` of them.
digits_before : ℕ → ℕ → String → String
digits_before zero n rest = rest
digits_before (suc fuel) n rest =
    let more = digits_before fuel (n / 10) (String.◌∷◌ (digit (n % 10)) rest) in
    if ltb n 10 then String.◌∷◌ (digit n) rest else more

-- `strconv.FormatInt(z, 10)`
unfoldable pub format_int : ℤ → String
unfolding digits_before digit
format_int (pos n) = digits_before (suc n) n ""
format_int (negsuc n) = "-" ++ digits_before (suc (suc n)) (suc n) ""

-- `strconv.FormatBool(b)`
unfoldable pub format_bool : Bool → String
format_bool true = "true"
format_bool false = "false"

parse_digits : ℕ → List ℕ → Option ℕ
parse_digits acc [] = some acc
parse_digits acc (c ∷ cs) =
    let rest = parse_digits (acc * 10 + (c - 48)) cs in if leb 48 c && leb c 57 then rest else none

-- At least one digit.
parse_magnitude : List ℕ → Option ℕ
unfolding parse_digits
parse_magnitude [] = none
parse_magnitude (c ∷ cs) = parse_digits 0 (c ∷ cs)

in_range : Bool → Option ℕ → Option ℤ
in_range negative none = none
in_range true (some n) = if leb n (2 ^ 63) then some (sub_ℕ 0 n) else none
in_range false (some n) = if ltb n (2 ^ 63) then some (pos n) else none

parse_signed : List ℕ → Option ℤ
unfolding in_range parse_magnitude
parse_signed [] = none
parse_signed (c ∷ cs) =
    if eqb c b'-'
    then in_range true (parse_magnitude cs)
    else if eqb c b'+'
    then in_range false (parse_magnitude cs)
    else in_range false (parse_magnitude (c ∷ cs))

-- `strconv.ParseInt(s, 10, 64)`, and `strconv.Atoi(s)` where `int` has 64 bits; `none` is an error
unfoldable pub parse_int : String → Option ℤ
unfolding parse_signed
parse_int s = parse_signed (codes s)

-- The number that `strconv.ParseInt(s, 10, 64)` gives beside its error: 0 for a text that is no number, and
-- the nearest `int64` for one that is out of range.
clamped : Bool → Option ℕ → ℤ
clamped negative none = pos 0
clamped true (some n) = if leb n (2 ^ 63) then sub_ℕ 0 n else negsuc (2 ^ 63 - 1)
clamped false (some n) = if ltb n (2 ^ 63) then pos n else pos (2 ^ 63 - 1)

unfoldable pub parse_int_value : String → ℤ
unfolding clamped parse_magnitude
parse_int_value s = elim (codes s) [
  | [] ↦ pos 0
  | c ∷ cs ↦
      if eqb c b'-'
      then clamped true (parse_magnitude cs)
      else if eqb c b'+'
      then clamped false (parse_magnitude cs)
      else clamped false (parse_magnitude (c ∷ cs))
]

-- `strconv.ParseBool(s)`; `none` is an error
unfoldable pub parse_bool : String → Option Bool
parse_bool s =
    if s == "1" || s == "t" || s == "T" || s == "true" || s == "TRUE" || s == "True"
    then some true
    else if s == "0" || s == "f" || s == "F" || s == "false" || s == "FALSE" || s == "False"
    then some false
    else none

format_test : format_int (negsuc 41) ≡ "-42"
unfolding format_int
format_test = refl

parse_test : parse_int "-9223372036854775808" ≡ some (negsuc 9223372036854775807)
unfolding parse_int
parse_test = refl

parse_range_test : parse_int "9223372036854775808" ≡ none
unfolding parse_int
parse_range_test = refl

clamp_test : parse_int_value "-9223372036854775809" ≡ negsuc 9223372036854775807
unfolding parse_int_value
clamp_test = refl
