-- ===== src/Feature/Operator.antt =====
-- `GetOperator` of evaluation/target.go.
use ff_golang_server_sdk.Common.{String, Option, none, some, ◌==◌, if◌then◌else◌}
use ff_golang_server_sdk.Common.Run.{Run, ret, panic, Result, ok, err}
use ff_golang_server_sdk.Go.{Runtime}
use ff_golang_server_sdk.Target.{
  Target, Value, invalid, bool_value, int_value, uint_value, float_value, string_value, slice_value,
  other_value, get_attr_value,
}
use ff_golang_server_sdk.Types.{ValueType}
use ff_golang_server_sdk.Types.Boolean.{boolean}
use ff_golang_server_sdk.Types.Integer.{integer}
use ff_golang_server_sdk.Types.Number.{number}
use ff_golang_server_sdk.Types.Text.{text}
use ff_golang_server_sdk.Types.Slice.{slice, new_slice, slice_type}

module _ (rt : Runtime) where
  -- The switch over the kind. `reflect.Value.Int` panics on an unsigned integer. The error holds the
  -- attribute's name.
  unfoldable pub operator_of : Value rt.Float → String → Run (Result String (Option ValueType))
  operator_of (bool_value b) attr = ret (ok (some (boolean b)))
  operator_of (string_value s) attr = ret (ok (some (text rt s)))
  operator_of (float_value t x) attr = ret (ok (some (number rt x)))
  operator_of (int_value t z) attr = ret (ok (some (integer z)))
  operator_of (uint_value t n) attr = panic
  operator_of (slice_value d) attr = ret (ok (some (slice_type rt (new_slice (slice d)))))
  operator_of invalid attr = ret (err attr)
  operator_of (other_value t) attr = ret (err attr)

  -- `GetOperator`
  unfoldable pub get_operator : Target rt.Float → String → Run (Result String (Option ValueType))
  unfolding operator_of
  get_operator t attr =
      if attr == "" then ret (ok none) else operator_of (get_attr_value rt (some t) attr) attr
