-- ===== src/Evaluator/Variation.antt =====
-- `evaluate` and the typed `*Variation` methods of evaluation/evaluator.go. Each returns its value and
-- the state that the callback leaves. `depth` and `fuel` bound the nesting of segments and of
-- prerequisites.
pub mod Total
pub mod Outcome
pub mod Source
use ff_golang_server_sdk.Common.{
  ℕ, String, Bool, true, false, Option, none, some, List, ◌==◌, if◌then◌else◌,
}
use ff_golang_server_sdk.Common.Int.{ℤ}
use ff_golang_server_sdk.Common.Run.{Run, ret, ◌>>=◌, Result, ok, err}
use ff_golang_server_sdk.Go.{Runtime}
use ff_golang_server_sdk.Go.Text.{lower_is}
use ff_golang_server_sdk.Go.Number.{parse_int}
use ff_golang_server_sdk.Errors.{Error, query_provider_missing, flag_kind_mismatch}
use ff_golang_server_sdk.Rest.{FeatureConfig, Prerequisite}
use ff_golang_server_sdk.Rest
use ff_golang_server_sdk.Target.{Target}
use ff_golang_server_sdk.Evaluator.{PostEvalData, Evaluator}
use ff_golang_server_sdk.Evaluator.Flag.{evaluate_flag, find_variation}
use ff_golang_server_sdk.Evaluator.Prerequisite.{check_pre_requisite}

module _ (rt : Runtime) {W : Type 0} (depth fuel : ℕ) (e : Evaluator rt W) where
  abbrev pub call_back : Option (PostEvalData rt → W → W) → PostEvalData rt → W → W
  call_back none event w = w
  call_back (some process) event w = process event w

  abbrev pub finish :
      FeatureConfig
      → Option (Target rt.Float)
      → W
      → Result Error Rest.Variation
      → Result Error Rest.Variation × W
  finish flag target w (err x) = (err x, w)
  finish flag target w (ok v) = (
    ok v,
    call_back e.post_eval_callback
        (record { feature_config = flag; target = target; variation = v }) w,
  )

  -- `err != nil || !prereq`
  abbrev pub blocked : Bool × Option Error → Bool
  blocked (prereq, some x) = true
  blocked (true, none) = false
  blocked (false, none) = true

  abbrev pub prerequisites_block :
      Option (List Prerequisite) → FeatureConfig → Option (Target rt.Float) → Run Bool
  prerequisites_block none flag target = ret false
  prerequisites_block (some _) flag target =
      check_pre_requisite rt depth fuel e.query flag target >>= λ r. ret (blocked r)

  -- `evaluate`, from the flag that the query gave.
  unfoldable pub evaluate_found :
      FeatureConfig → Option (Target rt.Float) → String → W → Run (Result Error Rest.Variation × W)
  evaluate_found flag target kind w =
      if flag.kind == kind
      then (prerequisites_block flag.prerequisites flag target >>= λ blocks.
          if blocks
          then ret (find_variation flag.variations flag.off_variation, w)
          else (evaluate_flag rt depth e.query flag target >>= λ r. ret (finish flag target w r)))
      else ret (err (flag_kind_mismatch kind flag.kind), w)

  abbrev pub with_flag :
      Result Error FeatureConfig
      → Option (Target rt.Float)
      → String
      → W
      → Run (Result Error Rest.Variation × W)
  with_flag (err x) target kind w = ret (err x, w)
  with_flag (ok flag) target kind w = evaluate_found flag target kind w

  -- `evaluate`
  unfoldable pub evaluate :
      String → Option (Target rt.Float) → String → W → Run (Result Error Rest.Variation × W)
  unfolding evaluate_found
  evaluate identifier target kind w = elim e.query [
    | none ↦ ret (err query_provider_missing, w)
    | some q ↦ with_flag (q.get_flag identifier) target kind w
  ]

  module _ {A : Type 0} (default_value : A) (read : String → Option A) where
    abbrev pub read_variation : Result Error Rest.Variation → A
    read_variation (err x) = default_value
    read_variation (ok v) = elim (read v.value) [ none ↦ default_value | some a ↦ a ]

    -- The shape that the five methods share: the default on an error of `evaluate` or of the parse.
    unfoldable pub typed_variation : String → Option (Target rt.Float) → String → W → Run (A × W)
    unfolding evaluate
    typed_variation identifier target kind w =
        evaluate identifier target kind w >>= λ r. ret (read_variation r.0, r.1)

  unfoldable pub bool_variation : String → Option (Target rt.Float) → Bool → W → Run (Bool × W)
  unfolding typed_variation
  bool_variation identifier target default_value =
      typed_variation default_value (λ s. some (lower_is rt s "true")) identifier target "boolean"

  unfoldable pub string_variation :
      String → Option (Target rt.Float) → String → W → Run (String × W)
  unfolding typed_variation
  string_variation identifier target default_value =
      typed_variation default_value some identifier target "string"

  unfoldable pub int_variation : String → Option (Target rt.Float) → ℤ → W → Run (ℤ × W)
  unfolding typed_variation
  int_variation identifier target default_value =
      typed_variation default_value parse_int identifier target "int"

  -- All numbers are stored as ints, so the kind is "int" here too.
  unfoldable pub number_variation :
      String → Option (Target rt.Float) → rt.Float → W → Run (rt.Float × W)
  unfolding typed_variation
  number_variation identifier target default_value =
      typed_variation default_value rt.parse_float identifier target "int"

  unfoldable pub json_variation :
      String → Option (Target rt.Float) → rt.Json → W → Run (rt.Json × W)
  unfolding typed_variation
  json_variation identifier target default_value =
      typed_variation default_value rt.unmarshal identifier target "json"
