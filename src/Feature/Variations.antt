-- ===== src/Feature/Variations.antt =====
-- The evaluation of a flag in evaluation/feature.go, and the values that a variation is read as.
use ff_golang_server_sdk.Common.{
  ℕ, String, Bool, true, false, Option, none, some, List, if◌then◌else◌,
}
use ff_golang_server_sdk.Common.Int.{ℤ}
use ff_golang_server_sdk.Common.Run.{Run, ret, ◌>>=◌, Result, ok, err}
use ff_golang_server_sdk.Go.{Runtime}
use ff_golang_server_sdk.Go.Number.{parse_bool, parse_int_value}
use ff_golang_server_sdk.Target.{Target}
use ff_golang_server_sdk.Feature.{Variation, FeatureConfig, Evaluation}
use ff_golang_server_sdk.Feature.Flag.{Kind, get_kind, get_variation_name, find_by_identifier}
use ff_golang_server_sdk.Feature.Prereqs.{prereqs_satisfied}

-- The errors of the older evaluation.
pub data FlagError : Type 0 where
  unexpected_type : FlagError
  no_variation : (feature target : String) → FlagError
  kind_of_flag : (feature : String) → FlagError

-- `Variation{}`
abbrev pub no_value : Variation
no_value = record { description = none; identifier = ""; name = none; value = "" }

abbrev same_kind : Kind → Kind → Bool
same_kind Kind.bool Kind.bool = true
same_kind Kind.string Kind.string = true
same_kind Kind.int Kind.int = true
same_kind Kind.float64 Kind.float64 = true
same_kind Kind.map Kind.map = true
same_kind Kind.invalid Kind.invalid = true
same_kind _ _ = false

module _ (rt : Runtime) where
  abbrev target_id : Option (Target rt.Float) → String
  target_id none = ""
  target_id (some t) = t.identifier

  abbrev found_or_error :
      FeatureConfig → Option (Target rt.Float) → Option Variation → Result FlagError Variation
  found_or_error fc target none = err (no_variation fc.feature (target_id target))
  found_or_error fc target (some v) = ok v

  -- `getVariation`
  unfoldable pub get_variation :
      FeatureConfig → Option (Target rt.Float) → Run (Result FlagError Variation)
  unfolding find_by_identifier
  get_variation fc target = get_variation_name rt fc target >>= λ name.
      ret (found_or_error fc target (find_by_identifier fc.variations name))

  -- An off variation that is not in the list falls through to the evaluation.
  abbrev off_or_evaluate :
      FeatureConfig → Option (Target rt.Float) → Option Variation → Run (Result FlagError Variation)
  off_or_evaluate fc target (some v) = ret (ok v)
  off_or_evaluate fc target none = get_variation fc target

  -- `getVariationWithPrereqs`
  unfoldable pub get_variation_with_prereqs :
      ℕ
      → FeatureConfig
      → Option (Target rt.Float)
      → Option (List (String × FeatureConfig))
      → Run (Result FlagError Variation)
  unfolding get_variation find_by_identifier
  get_variation_with_prereqs fuel fc target prereq_flags =
      prereqs_satisfied rt fuel fc target prereq_flags >>= λ satisfied.
      if satisfied
      then get_variation fc target
      else off_or_evaluate fc target (find_by_identifier fc.variations fc.off_variation)

  -- The shape of the five methods.
  abbrev of_kind :
      Kind → FeatureConfig → Option (Target rt.Float) → Run (Result FlagError Variation)
  of_kind kind fc target =
      if same_kind (get_kind fc) kind then get_variation fc target else ret (err unexpected_type)

  unfoldable pub bool_variation :
      FeatureConfig → Option (Target rt.Float) → Run (Result FlagError Variation)
  unfolding get_kind get_variation
  bool_variation = of_kind Kind.bool

  unfoldable pub string_variation :
      FeatureConfig → Option (Target rt.Float) → Run (Result FlagError Variation)
  unfolding get_kind get_variation
  string_variation = of_kind Kind.string

  unfoldable pub int_variation :
      FeatureConfig → Option (Target rt.Float) → Run (Result FlagError Variation)
  unfolding get_kind get_variation
  int_variation = of_kind Kind.int

  unfoldable pub number_variation :
      FeatureConfig → Option (Target rt.Float) → Run (Result FlagError Variation)
  unfolding get_kind get_variation
  number_variation = of_kind Kind.float64

  unfoldable pub json_variation :
      FeatureConfig → Option (Target rt.Float) → Run (Result FlagError Variation)
  unfolding get_kind get_variation
  json_variation = of_kind Kind.map

  -- Go's pair of an `Evaluation` and an error.
  abbrev evaluation : FeatureConfig → Result FlagError Variation → Evaluation × Option FlagError
  evaluation fc (ok v) = (record { flag = fc.feature; variation = v }, none)
  evaluation fc (err e) = (record { flag = fc.feature; variation = no_value }, some e)

  -- The switch of `Evaluate`
  unfoldable pub evaluate_by_kind :
      Kind → FeatureConfig → Option (Target rt.Float) → Run (Result FlagError Variation)
  unfolding bool_variation string_variation int_variation number_variation json_variation
  evaluate_by_kind Kind.bool fc target = bool_variation fc target
  evaluate_by_kind Kind.string fc target = string_variation fc target
  evaluate_by_kind Kind.int fc target = int_variation fc target
  evaluate_by_kind Kind.float64 fc target = number_variation fc target
  evaluate_by_kind Kind.map fc target = json_variation fc target
  evaluate_by_kind Kind.invalid fc target = ret (err (kind_of_flag fc.feature))

  -- `Evaluate`
  unfoldable pub evaluate :
      FeatureConfig → Option (Target rt.Float) → Run (Evaluation × Option FlagError)
  unfolding evaluate_by_kind
  evaluate fc target = evaluate_by_kind (get_kind fc) fc target >>= λ r. ret (evaluation fc r)

  -- `EvaluateWithPreReqFlags`
  unfoldable pub evaluate_with_pre_req_flags :
      ℕ
      → FeatureConfig
      → Option (Target rt.Float)
      → Option (List (String × FeatureConfig))
      → Run (Evaluation × Option FlagError)
  unfolding get_kind get_variation_with_prereqs
  evaluate_with_pre_req_flags fuel fc target prereq_flags =
      (if same_kind (get_kind fc) Kind.invalid
        then ret (err (kind_of_flag fc.feature))
        else get_variation_with_prereqs fuel fc target prereq_flags)
      >>= λ r. ret (evaluation fc r)

  -- `Bool`, `String`, `Number`, `Int` and `JSON` of a variation, which may be nil. The error of a parse is
  -- dropped, except for JSON.
  unfoldable pub as_bool : Option Variation → Bool → Bool
  as_bool none default_value = default_value
  as_bool (some v) default_value = elim (parse_bool v.value) [ none ↦ false | some b ↦ b ]

  unfoldable pub as_string : Option Variation → String → String
  as_string none default_value = default_value
  as_string (some v) default_value = v.value

  unfoldable pub as_number : Option Variation → rt.Float → rt.Float
  as_number none default_value = default_value
  as_number (some v) default_value = elim (rt.parse_float v.value) [
    | none ↦ rt.parse_float_value v.value
    | some x ↦ x
  ]

  unfoldable pub as_int : Option Variation → ℤ → ℤ
  unfolding parse_int_value
  as_int none default_value = default_value
  as_int (some v) default_value = parse_int_value v.value

  unfoldable pub as_json : Option Variation → rt.Json → rt.Json
  as_json none default_value = default_value
  as_json (some v) default_value = elim (rt.unmarshal v.value) [ none ↦ default_value | some j ↦ j ]
