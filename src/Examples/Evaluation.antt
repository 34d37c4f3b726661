-- ===== src/Examples/Evaluation.antt =====
-- The evaluator on the sample flags: `ann` is in the segment `staff`, `bob` is not.
use ff_golang_server_sdk.Common.{
  ℕ, ◌+◌, ◌≡◌, refl, Bool, false, Option, none, some, [], ◌∷◌, arith, Any,
}
use ff_golang_server_sdk.Common.Int.{pos}
use ff_golang_server_sdk.Common.Run.{ret, ok, err}
use ff_golang_server_sdk.Go.Number.{parse_int}
use ff_golang_server_sdk.Errors.{flag_kind_mismatch}
use ff_golang_server_sdk.Rest.{FeatureConfig}
use ff_golang_server_sdk.Target.{get_attr_value}
use ff_golang_server_sdk.Evaluator.{Query, Evaluator, PostEvalData}
use ff_golang_server_sdk.Evaluator.Clause.{
  contains, operate, evaluate_values, evaluate_clause, evaluate_clauses,
}
use ff_golang_server_sdk.Evaluator.Segment.{
  identifier_in, is_target_in_list, visit_segment, segments_loop,
  is_target_included_or_excluded_in_segment,
}
use ff_golang_server_sdk.Evaluator.Rules.{insert_rule, sort_rules, rules_loop, evaluate_rules}
use ff_golang_server_sdk.Evaluator.Flag.{
  find_variation, found_variation, on_variation, evaluate_flag,
}
use ff_golang_server_sdk.Evaluator.Prerequisite.{prerequisites_loop, check_pre_requisite}
use ff_golang_server_sdk.Evaluator.Variation.{
  evaluate_found, evaluate, typed_variation, bool_variation, int_variation,
}
use ff_golang_server_sdk.Evaluator.Variation.Total.{bool_variation-total}
use ff_golang_server_sdk.Evaluator.Variation.Outcome.{evaluate-listed}
use ff_golang_server_sdk.Bucket.{evaluate_distribution}
use ff_golang_server_sdk.Samples.{runtime, ann, bob}
use ff_golang_server_sdk.Samples.Flags.{
  dark_mode, query, rank, need, variation, flag, query-IsSound,
}

-- The callback counts the events.
abbrev count_event : Option (PostEvalData runtime → ℕ → ℕ)
count_event = some (λ event w. w + 1)

abbrev evaluator : Evaluator runtime ℕ
evaluator = record { query = some query; post_eval_callback = count_event }

ann_on :
    evaluate runtime 2 2 evaluator "dark_mode" (some ann) "boolean" 0
    ≡ ret (ok (variation "on" "true"), 1)
unfolding evaluate evaluate_found check_pre_requisite prerequisites_loop evaluate_flag on_variation
    evaluate_rules rules_loop sort_rules insert_rule evaluate_clauses evaluate_clause
    evaluate_values operate contains is_target_included_or_excluded_in_segment segments_loop
    visit_segment is_target_in_list identifier_in found_variation find_variation get_attr_value
    evaluate_distribution
ann_on = refl

evaluate-listed_example :
    (fc : FeatureConfig) × (query.get_flag "dark_mode" ≡ ok fc)
    × (fc.kind ≡ "boolean")
    × Any (λ u. u ≡ variation "on" "true") fc.variations
evaluate-listed_example =
    evaluate-listed runtime 2 2 query count_event "dark_mode" (some ann) "boolean" 0
      (variation "on" "true") 1 ann_on

ann_mismatch :
    evaluate runtime 2 2 evaluator "dark_mode" (some ann) "string" 0
    ≡ ret (err (flag_kind_mismatch "string" "boolean"), 0)
unfolding evaluate evaluate_found
ann_mismatch = refl

bob_unmet : check_pre_requisite runtime 2 2 (some query) dark_mode (some bob) ≡ ret (false, none)
unfolding check_pre_requisite prerequisites_loop evaluate_flag on_variation evaluate_rules
    rules_loop sort_rules insert_rule evaluate_clauses evaluate_clause evaluate_values operate
    contains is_target_included_or_excluded_in_segment segments_loop visit_segment is_target_in_list
    identifier_in found_variation find_variation get_attr_value evaluate_distribution
bob_unmet = refl

bool_variation-total_example :
    (r : Bool × ℕ) × (bool_variation runtime 2 2 evaluator "dark_mode" (some ann) false 0 ≡ ret r)
bool_variation-total_example =
    bool_variation-total runtime 1 2 query count_event rank need query-IsSound "dark_mode"
      (some ann) (omega arith) false 0

-- A flag of numbers.
abbrev limit : FeatureConfig
limit = record (flag "limit" none) {
  kind = "int";
  variations = variation "on" "42" ∷ variation "off" "7" ∷ [];
}

abbrev limit_query : Query
limit_query = record query { get_flag = λ id. ok limit }

abbrev limit_evaluator : Evaluator runtime ℕ
limit_evaluator = record { query = some limit_query; post_eval_callback = none }

ann_limit : int_variation runtime 2 1 limit_evaluator "limit" (some ann) (pos 0) 0 ≡ ret (pos 42, 0)
unfolding int_variation typed_variation evaluate evaluate_found evaluate_flag on_variation
    evaluate_rules rules_loop sort_rules insert_rule evaluate_clauses evaluate_clause
    evaluate_values operate contains is_target_included_or_excluded_in_segment segments_loop
    visit_segment is_target_in_list identifier_in found_variation find_variation get_attr_value
    evaluate_distribution parse_int
ann_limit = refl
