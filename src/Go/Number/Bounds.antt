-- ===== src/Go/Number/Bounds.antt =====
-- The numbers that `ParseInt` of Go's `strconv` gives.
use mathlib.Core.Path.{subst}
use ff_golang_server_sdk.Common.{
  ℕ, ◌-◌, ◌≤◌, ◌<◌, ◌^◌, String, ◌≡◌, refl, Bool, true, false, Bool-cases, inl, inr, Option, none,
  some, List, [], ◌∷◌, ltb, leb, eqb, if◌then◌else◌, arith,
}
use ff_golang_server_sdk.Common.Int.{ℤ, pos, negsuc, sub_ℕ}
use ff_golang_server_sdk.Go.Text.{codes}
use ff_golang_server_sdk.Go.Number.{
  in_range, parse_magnitude, parse_signed, parse_int, clamped, parse_int_value,
}

-- The range of a signed 64-bit integer.
abbrev pub IsInt64 : ℤ → Type 0
IsInt64 (pos n) = n < 2 ^ 63
IsInt64 (negsuc n) = n < 2 ^ 63

if-IsInt64 :
    (b : Bool) (x y : ℤ)
    → (b ≡ true → IsInt64 x)
    → (b ≡ false → IsInt64 y)
    → IsInt64 (if b then x else y)
if-IsInt64 true x y h k = h refl
if-IsInt64 false x y h k = k refl

sub-IsInt64 : (n : ℕ) → n ≤ 2 ^ 63 → IsInt64 (sub_ℕ 0 n)
sub-IsInt64 n h =
    if-IsInt64 (leb n 0) (pos (0 - n)) (negsuc (n - 0 - 1)) (λ e. omega arith) (λ e. omega arith)

if_some-IsInt64 :
    (b : Bool) (x z : ℤ)
    → (b ≡ true → IsInt64 x)
    → (if b then some x else none) ≡ some z
    → IsInt64 z
if_some-IsInt64 true x z h k = subst IsInt64 (cc k) (h refl)
if_some-IsInt64 false x z h k = cc k

fits : (n : ℕ) → leb n (2 ^ 63) ≡ true → n ≤ 2 ^ 63
fits n e = ground (arith, e)

below : (n : ℕ) → ltb n (2 ^ 63) ≡ true → n < 2 ^ 63
below n e = ground (arith, e)

in_range-IsInt64 :
    (negative : Bool) (o : Option ℕ) (z : ℤ) → in_range negative o ≡ some z → IsInt64 z
unfolding in_range
in_range-IsInt64 negative none z h = cc h
in_range-IsInt64 true (some n) z h =
    if_some-IsInt64 (leb n (2 ^ 63)) (sub_ℕ 0 n) z (λ e. sub-IsInt64 n (fits n e)) h
in_range-IsInt64 false (some n) z h = if_some-IsInt64 (ltb n (2 ^ 63)) (pos n) z (below n) h

clamped-IsInt64 : (negative : Bool) (o : Option ℕ) → IsInt64 (clamped negative o)
unfolding clamped
clamped-IsInt64 negative none = omega arith
clamped-IsInt64 true (some n) =
    if-IsInt64 (leb n (2 ^ 63)) (sub_ℕ 0 n) (negsuc (2 ^ 63 - 1)) (λ e. sub-IsInt64 n (fits n e))
      (λ e. omega arith)
clamped-IsInt64 false (some n) =
    if-IsInt64 (ltb n (2 ^ 63)) (pos n) (pos (2 ^ 63 - 1)) (below n) (λ e. omega arith)

parse_signed-IsInt64 : (cs : List ℕ) (z : ℤ) → parse_signed cs ≡ some z → IsInt64 z
unfolding parse_signed
parse_signed-IsInt64 [] z h = cc h
parse_signed-IsInt64 (c ∷ cs) z h = elim (Bool-cases (eqb c b'-')) [
  | inl e ↦ in_range-IsInt64 true (parse_magnitude cs) z (rw e at h)
  | inr e ↦ elim (Bool-cases (eqb c b'+')) [
    | inl p ↦ in_range-IsInt64 false (parse_magnitude cs) z (rw (e, p) at h)
    | inr p ↦ in_range-IsInt64 false (parse_magnitude (c ∷ cs)) z (rw (e, p) at h)
  ]
]

-- A text that parses as an integer is in the range of 64 bits.
pub parse_int-IsInt64 : (s : String) (z : ℤ) → parse_int s ≡ some z → IsInt64 z
unfolding parse_int
parse_int-IsInt64 s z h = parse_signed-IsInt64 (codes s) z h

value-IsInt64 :
    (cs : List ℕ)
    → IsInt64 (elim cs [
      | [] ↦ pos 0
      | c ∷ cs ↦
          if eqb c b'-'
          then clamped true (parse_magnitude cs)
          else if eqb c b'+'
          then clamped false (parse_magnitude cs)
          else clamped false (parse_magnitude (c ∷ cs))
    ])
value-IsInt64 [] = omega arith
value-IsInt64 (c ∷ cs) =
    if-IsInt64 (eqb c b'-') _ _ (λ e. clamped-IsInt64 true (parse_magnitude cs))
      (λ e.
        if-IsInt64 (eqb c b'+') _ _ (λ p. clamped-IsInt64 false (parse_magnitude cs))
          (λ p. clamped-IsInt64 false (parse_magnitude (c ∷ cs))))

-- And so is what `ParseInt` gives beside its error.
pub parse_int_value-IsInt64 : (s : String) → IsInt64 (parse_int_value s)
unfolding parse_int_value
parse_int_value-IsInt64 s = value-IsInt64 (codes s)
