-- ===== src/Types/Boolean.antt =====
-- types/bool.go
use ff_golang_server_sdk.Common.{String, Bool, true, false, Option, none, some, List, [], ◌∷◌}
use ff_golang_server_sdk.Go.Number.{parse_bool}
use ff_golang_server_sdk.Target.{Value, bool_value}
use ff_golang_server_sdk.Types.{ValueType}

-- `NewBoolean`; `none` is an error
unfoldable pub new_boolean : {F : Type 0} → Value F → Option Bool
new_boolean (bool_value b) = some b
new_boolean v = none

-- `boolOperator`
unfoldable pub bool_operator : List String → (Bool → Bool) → Bool
bool_operator [] fn = false
bool_operator (v ∷ value) fn = elim (parse_bool v) [ some i ↦ fn i | none ↦ false ]

abbrev pub same_bool : Bool → Bool → Bool
same_bool true f = f
same_bool false true = false
same_bool false false = true

-- `Equal`
unfoldable pub equal : Bool → List String → Bool
unfolding bool_operator
equal b value = bool_operator value (λ f. same_bool b f)

-- `Boolean`: all other operators are always false.
abbrev pub boolean : Bool → ValueType
boolean b = record {
  starts_with = λ value. false;
  ends_with = λ value. false;
  match = λ value. false;
  contains = λ value. false;
  equal_sensitive = λ value. false;
  equal = equal b;
  greater_than = λ value. false;
  greater_than_equal = λ value. false;
  less_than = λ value. false;
  less_than_equal = λ value. false;
  in_values = λ value. false;
}
