-- ===== src/Types/Text.antt =====
-- types/string.go
use ff_golang_server_sdk.Common.{
  String, Bool, true, false, not, Option, none, some, List, [], ◌∷◌, ◌==◌, if◌then◌else◌,
}
use ff_golang_server_sdk.Go.{Runtime}
use ff_golang_server_sdk.Go.Text.{
  has_prefix, has_suffix, contains_text, equal_fold, to_lower, gt_codes,
}
use ff_golang_server_sdk.Target.{Value, string_value}
use ff_golang_server_sdk.Types.{ValueType}

-- `NewString`; `none` is an error
unfoldable pub new_string : {F : Type 0} → Value F → Option String
new_string (string_value s) = some s
new_string v = none

-- `stringOperator`
unfoldable pub string_operator : List String → (String → Bool) → Bool
string_operator [] fn = false
string_operator (c ∷ value) fn = fn c

-- `StartsWith`, `EndsWith`, `Contains`, `EqualSensitive`
unfoldable pub starts_with : String → List String → Bool
unfolding string_operator
starts_with s value = string_operator value (λ c. has_prefix s c)

unfoldable pub ends_with : String → List String → Bool
unfolding string_operator
ends_with s value = string_operator value (λ c. has_suffix s c)

unfoldable pub contains : String → List String → Bool
unfolding string_operator
contains s value = string_operator value (λ c. contains_text s c)

unfoldable pub equal_sensitive : String → List String → Bool
unfolding string_operator
equal_sensitive s value = string_operator value (λ c. s == c)

module _ (rt : Runtime) where
  abbrev matched : Option Bool → Bool
  matched none = false
  matched (some b) = b

  -- `Match`: the attribute is the pattern, and the value is the text.
  unfoldable pub match : String → List String → Bool
  unfolding string_operator
  match s value = string_operator value (λ c. matched (rt.match_string s c))

  -- `Equal`, `GreaterThan`, `GreaterThanEqual`, `LessThan`, `LessThanEqual`, `In`
  unfoldable pub equal : String → List String → Bool
  unfolding string_operator
  equal s value = string_operator value (λ c. equal_fold rt s c)

  unfoldable pub greater_than : String → List String → Bool
  unfolding string_operator
  greater_than s value = string_operator value (λ c. gt_codes (to_lower rt s) (to_lower rt c))

  unfoldable pub greater_than_equal : String → List String → Bool
  unfolding string_operator
  greater_than_equal s value =
      string_operator value (λ c. not (gt_codes (to_lower rt c) (to_lower rt s)))

  unfoldable pub less_than : String → List String → Bool
  unfolding string_operator
  less_than s value = string_operator value (λ c. gt_codes (to_lower rt c) (to_lower rt s))

  unfoldable pub less_than_equal : String → List String → Bool
  unfolding string_operator
  less_than_equal s value =
      string_operator value (λ c. not (gt_codes (to_lower rt s) (to_lower rt c)))

  unfoldable pub in_values : String → List String → Bool
  in_values s [] = false
  in_values s (x ∷ value) = if equal_fold rt s x then true else in_values s value

  -- `String`
  abbrev pub text : String → ValueType
  text s = record {
    starts_with = starts_with s;
    ends_with = ends_with s;
    match = match s;
    contains = contains s;
    equal_sensitive = equal_sensitive s;
    equal = equal s;
    greater_than = greater_than s;
    greater_than_equal = greater_than_equal s;
    less_than = less_than s;
    less_than_equal = less_than_equal s;
    in_values = in_values s;
  }
