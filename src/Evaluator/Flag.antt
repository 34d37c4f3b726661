-- ===== src/Evaluator/Flag.antt =====
-- `evaluateFlag` of evaluation/evaluator.go and `findVariation` of evaluation/util.go.
pub mod Total
use ff_golang_server_sdk.Common.{ℕ, String, Option, none, some, List, [], ◌∷◌, ◌==◌, if◌then◌else◌}
use ff_golang_server_sdk.Common.Run.{Run, ret, ◌>>=◌, Result, ok, err}
use ff_golang_server_sdk.Go.{Runtime}
use ff_golang_server_sdk.Errors.{Error, variation_not_found, evaluation_flag}
use ff_golang_server_sdk.Rest.{
  FeatureConfig, Serve, ServingRule, Variation, VariationMap, feature_state_on,
}
use ff_golang_server_sdk.Target.{Target}
use ff_golang_server_sdk.Bucket.{evaluate_distribution}
use ff_golang_server_sdk.Evaluator.{Query}
use ff_golang_server_sdk.Evaluator.Clause.{Included}
use ff_golang_server_sdk.Evaluator.Segment.{is_target_included_or_excluded_in_segment}
use ff_golang_server_sdk.Evaluator.Rules.{evaluate_rules, evaluate_variation_map}

-- `findVariation`
unfoldable pub find_variation : List Variation → String → Result Error Variation
find_variation [] identifier = err (variation_not_found identifier)
find_variation (v ∷ variations) identifier =
    if v.identifier == identifier then ok v else find_variation variations identifier

abbrev pub or_else : String → String → String
or_else first second = if first == "" then second else first

abbrev pub served_variation : Option String → String
served_variation none = ""
served_variation (some v) = v

-- The end of `evaluateFlag`: an empty variation is an error.
unfoldable pub found_variation : FeatureConfig → String → Result Error Variation
unfolding find_variation
found_variation fc variation =
    if variation == ""
    then err (evaluation_flag fc.feature)
    else find_variation fc.variations variation

module _ (rt : Runtime) where
  abbrev pub from_default : Serve → Option (Target rt.Float) → String
  from_default serve target =
      or_else (evaluate_distribution rt serve.distribution target)
        (served_variation serve.variation)

  module _ (included : Included rt) where
    abbrev pub from_map : Option (List VariationMap) → Option (Target rt.Float) → Run String
    from_map none target = ret ""
    from_map (some maps) target = evaluate_variation_map rt included maps target

    abbrev pub from_rules : Option (List ServingRule) → Option (Target rt.Float) → Run String
    from_rules none target = ret ""
    from_rules (some rules) target = evaluate_rules rt included rules target

    -- The variation of a flag that is on.
    unfoldable pub on_variation : FeatureConfig → Option (Target rt.Float) → Run String
    on_variation fc target = do
      mapped ← from_map fc.variation_to_target_map target
      ruled ← if mapped == "" then from_rules fc.rules target else ret mapped
      ret (if ruled == "" then from_default fc.default_serve target else ruled)

  -- `evaluateFlag`
  unfoldable pub evaluate_flag :
      ℕ → Option Query → FeatureConfig → Option (Target rt.Float) → Run (Result Error Variation)
  unfolding on_variation
  evaluate_flag fuel query fc target = do
    variation ←
        if fc.state == feature_state_on
        then on_variation (is_target_included_or_excluded_in_segment rt fuel query) fc target
        else ret fc.off_variation
    ret (found_variation fc variation)
