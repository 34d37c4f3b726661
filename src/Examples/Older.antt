-- ===== src/Examples/Older.antt =====
-- The older evaluation beside the evaluator, at the sample targets.
use ff_golang_server_sdk.Common.{
  String, ◌≡◌, refl, true, false, ◌↔◌, none, some, List, [], ◌∷◌, All,
}
use ff_golang_server_sdk.Common.Dict.{lookup}
use ff_golang_server_sdk.Common.Int.{pos}
use ff_golang_server_sdk.Common.Run.{ret, ok}
use ff_golang_server_sdk.Rest
use ff_golang_server_sdk.Evaluator.{Query}
use ff_golang_server_sdk.Evaluator.Clause
use ff_golang_server_sdk.Evaluator.Clause.{Included, operate, evaluate_values}
use ff_golang_server_sdk.Evaluator.Segment.{is_target_included_or_excluded_in_segment}
use ff_golang_server_sdk.Feature
use ff_golang_server_sdk.Feature.{Distribution, FeatureConfig}
use ff_golang_server_sdk.Feature.Rules.{rules_variation_name}
use ff_golang_server_sdk.Feature.SegmentRules.{evaluate_segment}
use ff_golang_server_sdk.Feature.Flag.{get_variation_name, find_by_identifier}
use ff_golang_server_sdk.Feature.Agreement.{from_segment, evaluate_segment-no_rules}
use ff_golang_server_sdk.Feature.Prereqs.{check_pre_reqs, prereqs_satisfied}
use ff_golang_server_sdk.Feature.Satisfied.{IsMet, prereqs_satisfied_iff}
use ff_golang_server_sdk.Samples.{runtime, ann}
use ff_golang_server_sdk.Samples.Flags.{segment, query}

abbrev by_identifier : Distribution
by_identifier = record {
  bucket_by = "identifier";
  variations =
      record { variation = "dark"; weight = pos 30 }
      ∷ record { variation = "light"; weight = pos 70 }
      ∷ [];
}

abbrev on_email : String → String → Rest.Clause
on_email op value = record {
  attribute = "email";
  id = "";
  negate = false;
  op = op;
  values = value ∷ [];
}

abbrev two_clauses : List Rest.Clause
two_clauses = on_email "ends_with" "harness.io" ∷ on_email "starts_with" "bob" ∷ []

abbrev inner : Included runtime
inner = is_target_included_or_excluded_in_segment runtime 1 (some query)

abbrev mailing : List Rest.Clause → Rest.Segment
mailing rules = segment "mailing" none (some rules)

-- A query that gives the one segment for every identifier.
abbrev serving : Rest.Segment → Query
serving s = record query { get_segment = λ id. ok s }

evaluate_segment-no_rules_example :
    (evaluate_segment runtime ann (from_segment (mailing [])) ≡ ret false)
    × (is_target_included_or_excluded_in_segment runtime 1
          (some (serving (mailing [])))
          ("mailing" ∷ [])
          (some ann)
        ≡ ret true)
evaluate_segment-no_rules_example =
    evaluate_segment-no_rules runtime 0 (serving (mailing [])) ann "mailing" (mailing []) refl refl
      (λ h. h) (λ h. h)

-- A flag of the older data, whose prerequisite is the flag `base`.
abbrev older_flag : String → List Feature.Prerequisite → FeatureConfig
older_flag feature prerequisites = record {
  default_serve = record { distribution = none; variation = some "on" };
  environment = "prod";
  feature = feature;
  kind = "boolean";
  off_variation = "off";
  prerequisites = prerequisites;
  project = "";
  rules = [];
  state = "on";
  variation_to_target_map = [];
  variations =
      record { description = none; identifier = "on"; name = none; value = "true" }
      ∷ record { description = none; identifier = "off"; name = none; value = "false" }
      ∷ [];
  segments = none;
}

abbrev wants : List String → Feature.FeatureConfig
wants variations =
    older_flag "dark_mode" (record { feature = "base"; variations = variations } ∷ [])

abbrev older_flags : List (String × FeatureConfig)
older_flags = ("base", older_flag "base" []) ∷ []

prereqs_satisfied_iff_example :
    (prereqs_satisfied runtime 1 (wants ("true" ∷ [])) (some ann) (some older_flags) ≡ ret true)
    ↔ All
        (IsMet runtime older_flags (some ann) (check_pre_reqs runtime older_flags (some ann) 1))
        (record { feature = "base"; variations = "true" ∷ [] } ∷ [])
prereqs_satisfied_iff_example =
    prereqs_satisfied_iff runtime older_flags (some ann) 1 (wants ("true" ∷ []))

-- Both values of the flag are wanted, and the prerequisite is never met.
both_wanted :
    prereqs_satisfied runtime 1 (wants ("true" ∷ "false" ∷ [])) (some ann) (some older_flags)
    ≡ ret false
unfolding prereqs_satisfied lookup get_variation_name find_by_identifier rules_variation_name
both_wanted = refl

one_wanted :
    prereqs_satisfied runtime 1 (wants ("true" ∷ [])) (some ann) (some older_flags) ≡ ret true
unfolding prereqs_satisfied lookup get_variation_name find_by_identifier rules_variation_name
one_wanted = refl
