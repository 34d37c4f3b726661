-- ===== src/Types/Number.antt =====
-- types/number.go. `>=` and `<=` on floats are `>` or `==`: both are false at a NaN.
use ff_golang_server_sdk.Common.{
  String, Bool, true, false, ◌||◌, Option, none, some, List, [], ◌∷◌, if◌then◌else◌,
}
use ff_golang_server_sdk.Go.{Runtime}
use ff_golang_server_sdk.Target.{Value, float_value, float64}
use ff_golang_server_sdk.Types.{ValueType}

-- `NewNumber`; `none` is an error
unfoldable pub new_number : {F : Type 0} → Value F → Option F
new_number (float_value float64 x) = some x
new_number v = none

module _ (rt : Runtime) where
  -- `numberOperator`
  unfoldable pub number_operator : List String → (rt.Float → Bool) → Bool
  number_operator [] fn = false
  number_operator (v ∷ value) fn = elim (rt.parse_float v) [ some i ↦ fn i | none ↦ false ]

  -- `Equal`, `GreaterThan`, `GreaterThanEqual`, `LessThan`, `LessThanEqual`, `In`
  unfoldable pub equal : rt.Float → List String → Bool
  unfolding number_operator
  equal n value = number_operator value (λ f. rt.float_eq n f)

  unfoldable pub greater_than : rt.Float → List String → Bool
  unfolding number_operator
  greater_than n value = number_operator value (λ f. rt.float_lt f n)

  unfoldable pub greater_than_equal : rt.Float → List String → Bool
  unfolding number_operator
  greater_than_equal n value = number_operator value (λ f. rt.float_lt f n || rt.float_eq n f)

  unfoldable pub less_than : rt.Float → List String → Bool
  unfolding number_operator
  less_than n value = number_operator value (λ f. rt.float_lt n f)

  unfoldable pub less_than_equal : rt.Float → List String → Bool
  unfolding number_operator
  less_than_equal n value = number_operator value (λ f. rt.float_lt n f || rt.float_eq n f)

  unfoldable pub in_values : rt.Float → List String → Bool
  unfolding equal
  in_values n [] = false
  in_values n (x ∷ value) = if equal n (x ∷ []) then true else in_values n value

  -- `Number`: the operators on texts are always false.
  abbrev pub number : rt.Float → ValueType
  number n = record {
    starts_with = λ value. false;
    ends_with = λ value. false;
    match = λ value. false;
    contains = λ value. false;
    equal_sensitive = λ value. false;
    equal = equal n;
    greater_than = greater_than n;
    greater_than_equal = greater_than_equal n;
    less_than = less_than n;
    less_than_equal = less_than_equal n;
    in_values = in_values n;
  }
