-- ===== src/Types/Integer.antt =====
-- types/int.go
use ff_golang_server_sdk.Common.{
  String, Bool, true, false, ◌&&◌, Option, none, some, List, [], ◌∷◌, if◌then◌else◌,
}
use ff_golang_server_sdk.Common.Int.{ℤ, ltb_ℤ, leb_ℤ}
use ff_golang_server_sdk.Go.Number.{parse_int}
use ff_golang_server_sdk.Target.{Value, int_value, int64}
use ff_golang_server_sdk.Types.{ValueType}

-- `NewInteger`; `none` is an error
unfoldable pub new_integer : {F : Type 0} → Value F → Option ℤ
new_integer (int_value int64 z) = some z
new_integer v = none

-- `intOperator`
unfoldable pub int_operator : List String → (ℤ → Bool) → Bool
int_operator [] fn = false
int_operator (v ∷ value) fn = elim (parse_int v) [ some i ↦ fn i | none ↦ false ]

abbrev pub same_int : ℤ → ℤ → Bool
same_int a b = leb_ℤ a b && leb_ℤ b a

-- `Equal`, `GreaterThan`, `GreaterThanEqual`, `LessThan`, `LessThanEqual`, `In`
unfoldable pub equal : ℤ → List String → Bool
unfolding int_operator
equal n value = int_operator value (λ f. same_int n f)

unfoldable pub greater_than : ℤ → List String → Bool
unfolding int_operator
greater_than n value = int_operator value (λ f. ltb_ℤ f n)

unfoldable pub greater_than_equal : ℤ → List String → Bool
unfolding int_operator
greater_than_equal n value = int_operator value (λ f. leb_ℤ f n)

unfoldable pub less_than : ℤ → List String → Bool
unfolding int_operator
less_than n value = int_operator value (λ f. ltb_ℤ n f)

unfoldable pub less_than_equal : ℤ → List String → Bool
unfolding int_operator
less_than_equal n value = int_operator value (λ f. leb_ℤ n f)

unfoldable pub in_values : ℤ → List String → Bool
unfolding equal
in_values n [] = false
in_values n (x ∷ value) = if equal n (x ∷ []) then true else in_values n value

-- `Integer`: the operators on texts are always false.
abbrev pub integer : ℤ → ValueType
integer n = record {
  starts_with = λ value. false;
  ends_with = λ value. false;
  match = λ value. false;
  contains = λ value. false;
  equal_sensitive = λ value. false;
  equal = equal n;
  greater_than = greater_than n;
  greater_than_equal = greater_than_equal n;
  less_than = less_than n;
  less_than_equal = less_than_equal n;
  in_values = in_values n;
}
