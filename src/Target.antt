-- ===== src/Target.antt =====
-- evaluation/target.go and `getAttrValue` of evaluation/util.go: targets, and the reflection on the
-- values of their attributes.
use Prim.Native.String.{◌++◌}
use ff_golang_server_sdk.Common.{
  ℕ, String, Bool, true, false, Option, none, some, List, [], if◌then◌else◌,
}
use ff_golang_server_sdk.Common.Dict.{lookup}
use ff_golang_server_sdk.Common.Int.{ℤ}
use ff_golang_server_sdk.Go.{Runtime}
use ff_golang_server_sdk.Go.Text.{lower_is}
use ff_golang_server_sdk.Go.Number.{format_int, format_bool}

pub data IntType : Type 0 where
  int int8 int16 int32 int64 : IntType

pub data FloatType : Type 0 where
  float32 float64 : FloatType

-- A member of a `[]interface{}`, by the types that types/slice.go tells apart.
pub data Element (F : Type 0) : Type 0 where
  string_element : String → Element F
  float_element : F → Element F
  bool_element : Bool → Element F
  other_element : Element F

-- A slice, by the types of its members.
pub data SliceData (F : Type 0) : Type 0 where
  strings : List String → SliceData F
  floats : List F → SliceData F
  bools : List Bool → SliceData F
  interfaces : List (Element F) → SliceData F
  other_slice : (type_name : String) → SliceData F

-- An `interface{}` by what its dynamic type is: of the types that the SDK tells apart by kind, and the
-- others by their name. `invalid` is the zero `reflect.Value`, which a nil interface gives too.
pub data Value (F : Type 0) : Type 0 where
  invalid : Value F
  bool_value : Bool → Value F
  int_value : IntType → ℤ → Value F
  uint_value : (type_name : String) → ℕ → Value F
  float_value : FloatType → F → Value F
  string_value : String → Value F
  slice_value : SliceData F → Value F
  other_value : (type_name : String) → Value F

pub record Target (F : Type 0) : Type 0 where
  pub identifier : String
  pub name : String
  pub anonymous : Option Bool
  pub attributes : Option (List (String × Value F))

-- The built-in fields, behind the custom attributes.
pub builtin_attr : (rt : Runtime) → Target rt.Float → String → Value rt.Float
builtin_attr rt target attr =
    if lower_is rt attr "identifier"
    then string_value target.identifier
    else if lower_is rt attr "name"
    then string_value target.name
    else invalid

abbrev pub entries : {F : Type 0} → Option (List (String × Value F)) → List (String × Value F)
entries none = []
entries (some m) = m

abbrev pub or_builtin : {F : Type 0} → Value F → Option (Value F) → Value F
or_builtin builtin none = builtin
or_builtin builtin (some v) = v

-- `getAttrValue(target, attr)`
unfoldable pub get_attr_value : (rt : Runtime) → Option (Target rt.Float) → String → Value rt.Float
unfolding lookup builtin_attr
get_attr_value rt none attr = invalid
get_attr_value rt (some t) attr =
    or_builtin (builtin_attr rt t attr) (lookup attr (entries t.attributes))

abbrev int_type_name : IntType → String
int_type_name int = "int"
int_type_name int8 = "int8"
int_type_name int16 = "int16"
int_type_name int32 = "int32"
int_type_name int64 = "int64"

abbrev float_type_name : FloatType → String
float_type_name float32 = "float32"
float_type_name float64 = "float64"

abbrev slice_type_name : {F : Type 0} → SliceData F → String
slice_type_name (strings xs) = "[]string"
slice_type_name (floats xs) = "[]float64"
slice_type_name (bools xs) = "[]bool"
slice_type_name (interfaces xs) = "[]interface {}"
slice_type_name (other_slice t) = t

-- The name of the dynamic type, as `reflect.Type.String` gives it.
unfoldable pub type_name : {F : Type 0} → Value F → String
type_name invalid = "invalid"
type_name (bool_value b) = "bool"
type_name (int_value t z) = int_type_name t
type_name (uint_value t n) = t
type_name (float_value t x) = float_type_name t
type_name (string_value s) = "string"
type_name (slice_value d) = slice_type_name d
type_name (other_value t) = t

-- `reflect.Value.String`: the text of a string, and of any other value only its type.
unfoldable pub value_string : {F : Type 0} → Value F → String
unfolding type_name
value_string (string_value s) = s
value_string v = "<" ++ type_name v ++ " Value>"

-- `reflect.Value.IsValid`
unfoldable pub is_valid : {F : Type 0} → Value F → Bool
is_valid invalid = false
is_valid v = true

-- `object` of `evaluateClause`: the cases that format the value, and all others, which format the empty
-- text that `object` still holds.
unfoldable pub clause_object : {F : Type 0} → Value F → String
clause_object (int_value int z) = format_int z
clause_object (int_value int64 z) = format_int z
clause_object (bool_value b) = format_bool b
clause_object (string_value s) = s
clause_object v = ""
