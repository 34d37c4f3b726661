-- ===== src/Types/Slice.antt =====
-- types/slice.go
use ff_golang_server_sdk.Common.{
  String, Bool, true, false, Option, none, some, List, [], ◌∷◌, if◌then◌else◌,
}
use ff_golang_server_sdk.Go.{Runtime}
use ff_golang_server_sdk.Go.Text.{equal_fold}
use ff_golang_server_sdk.Go.Number.{parse_bool}
use ff_golang_server_sdk.Target.{
  Element, string_element, float_element, bool_element, other_element, SliceData, strings, floats,
  bools, interfaces, other_slice,
}
use ff_golang_server_sdk.Types.{ValueType}
use ff_golang_server_sdk.Types.Boolean.{same_bool}

-- What the field `data` holds: a slice, a pointer to one, or anything else.
pub data Held (F : Type 0) : Type 0 where
  slice pointer_to : SliceData F → Held F
  no_slice : Held F

-- `Slice`, and `NewSlice`
pub record Slice (F : Type 0) : Type 0 where
  pub held : Held F

unfoldable pub new_slice : {F : Type 0} → Held F → Slice F
new_slice value = record { held = value }

-- `validateSlice`
unfoldable pub validate_slice : {F : Type 0} → Held F → Option (SliceData F)
validate_slice (slice d) = some d
validate_slice (pointer_to d) = some d
validate_slice no_slice = none

module _ (rt : Runtime) where
  -- `stringcmp`, `float64cmp`, `boolcmp`
  unfoldable pub stringcmp : String → List String → Bool
  stringcmp attribute [] = false
  stringcmp attribute (value ∷ values) =
      if equal_fold rt value attribute then true else stringcmp attribute values

  abbrev float_is : rt.Float → Option rt.Float → Bool
  float_is attribute none = false
  float_is attribute (some x) = rt.float_eq x attribute

  unfoldable pub float64cmp : rt.Float → List String → Bool
  float64cmp attribute [] = false
  float64cmp attribute (value ∷ values) =
      if float_is attribute (rt.parse_float value) then true else float64cmp attribute values

  abbrev bool_is : Bool → Option Bool → Bool
  bool_is attribute none = false
  bool_is attribute (some b) = same_bool b attribute

  unfoldable pub boolcmp : Bool → List String → Bool
  boolcmp attribute [] = false
  boolcmp attribute (value ∷ values) =
      if bool_is attribute (parse_bool value) then true else boolcmp attribute values

  unfoldable pub element_cmp : Element rt.Float → List String → Bool
  unfolding stringcmp float64cmp boolcmp
  element_cmp (string_element s) values = stringcmp s values
  element_cmp (float_element x) values = float64cmp x values
  element_cmp (bool_element b) values = boolcmp b values
  element_cmp other_element values = false

  -- The loops of `In`: some attribute compares.
  unfoldable pub some_attribute :
      {A : Type 0} → (A → List String → Bool) → List A → List String → Bool
  some_attribute cmp [] values = false
  some_attribute cmp (attribute ∷ attributes) values =
      if cmp attribute values then true else some_attribute cmp attributes values

  unfoldable pub in_data : Option (SliceData rt.Float) → List String → Bool
  unfolding some_attribute element_cmp
  in_data none values = false
  in_data (some (strings attributes)) values = some_attribute stringcmp attributes values
  in_data (some (floats attributes)) values = some_attribute float64cmp attributes values
  in_data (some (bools attributes)) values = some_attribute boolcmp attributes values
  in_data (some (interfaces attributes)) values = some_attribute element_cmp attributes values
  in_data (some (other_slice t)) values = false

  -- `In`
  unfoldable pub in_values : Slice rt.Float → List String → Bool
  unfolding in_data validate_slice
  in_values s values = in_data (validate_slice s.held) values

  -- `Equal` and `Contains` are `In`; all other operators are always false.
  abbrev pub slice_type : Slice rt.Float → ValueType
  slice_type s = record {
    starts_with = λ value. false;
    ends_with = λ value. false;
    match = λ value. false;
    contains = in_values s;
    equal_sensitive = λ value. false;
    equal = in_values s;
    greater_than = λ value. false;
    greater_than_equal = λ value. false;
    less_than = λ value. false;
    less_than_equal = λ value. false;
    in_values = in_values s;
  }
