-- ===== src/Examples/Nesting.antt =====
-- Segments and prerequisites that name others, and the order of rules.
use mathlib.Core.Logic.{◌↔◌}
use mathlib.Core.List.{Permᴰ}
use ff_golang_server_sdk.Common.{ℕ, String, ◌≡◌, ◌≢◌, refl, true, none, some, List, [], ◌∷◌, arith}
use ff_golang_server_sdk.Common.Int.{pos}
use ff_golang_server_sdk.Common.Run.{ret, no_fuel, Returns, ok}
use ff_golang_server_sdk.Rest.{ServingRule, FeatureConfig}
use ff_golang_server_sdk.Target.{get_attr_value}
use ff_golang_server_sdk.Evaluator.{Query}
use ff_golang_server_sdk.Evaluator.Clause.{
  Included, contains, operate, evaluate_values, evaluate_clause, evaluate_clauses,
}
use ff_golang_server_sdk.Evaluator.Segment.{
  identifier_in, is_target_in_list, visit_segment, segments_loop,
  is_target_included_or_excluded_in_segment,
}
use ff_golang_server_sdk.Evaluator.Segment.Membership.{
  Belongs, is_target_included_or_excluded_in_segment_iff,
}
use ff_golang_server_sdk.Evaluator.Segment.Nesting.{
  is_target_included_or_excluded_in_segment-Returns, self_reference_diverges,
}
use ff_golang_server_sdk.Evaluator.Rules.{insert_rule, sort_rules, rules_loop, evaluate_rules}
use ff_golang_server_sdk.Evaluator.Rules.Order.{HasDistinct, evaluate_rules-perm}
use ff_golang_server_sdk.Evaluator.Flag.{
  find_variation, found_variation, on_variation, evaluate_flag,
}
use ff_golang_server_sdk.Evaluator.Prerequisite.{check_pre_requisite}
use ff_golang_server_sdk.Evaluator.Prerequisite.Checks.{Passes, check_pre_requisite_iff}
use ff_golang_server_sdk.Bucket.{evaluate_distribution}
use ff_golang_server_sdk.Samples.{runtime, ann, bob}
use ff_golang_server_sdk.Samples.Flags.{
  loop, names, needs, flag, dark_mode, query, rank, variation, query-IsRanked,
}

is_target_included_or_excluded_in_segment_iff_example :
    (is_target_included_or_excluded_in_segment runtime 2 (some query) ("staff" ∷ []) (some ann)
      ≡ ret true)
    ↔ Belongs runtime query
        (is_target_included_or_excluded_in_segment runtime 1 (some query))
        ann
        ("staff" ∷ [])
is_target_included_or_excluded_in_segment_iff_example =
    is_target_included_or_excluded_in_segment_iff runtime 1 query ("staff" ∷ []) ann

is_target_included_or_excluded_in_segment-Returns_example :
    Returns
      (is_target_included_or_excluded_in_segment runtime 2 (some query) ("staff" ∷ []) (some bob))
is_target_included_or_excluded_in_segment-Returns_example =
    is_target_included_or_excluded_in_segment-Returns runtime query rank query-IsRanked bob 1
      ("staff" ∷ []) (omega arith, tt)

-- Every identifier is a segment that names itself, or a flag that needs itself.
abbrev circle : FeatureConfig
circle = flag "circle" (some (needs "circle" ∷ []))

abbrev circles : Query
circles = record { get_segment = λ id. ok loop; get_flag = λ id. ok circle }

self_reference_diverges_example :
    is_target_included_or_excluded_in_segment runtime 9 (some circles) ("loop" ∷ []) (some ann)
    ≡ no_fuel
unfolding is_target_in_list
self_reference_diverges_example =
    self_reference_diverges runtime circles ann "loop" loop (names "loop") [] [] refl refl refl refl
      refl refl 9 []

-- The same flag without rules: they name a segment.
abbrev bare : FeatureConfig
bare = record circle {
  rules = none;
  default_serve = record { distribution = none; variation = some "on" };
}

abbrev bare_circle : Query
bare_circle = record { get_segment = λ id. ok loop; get_flag = λ id. ok bare }

bare_on :
    evaluate_flag runtime 1 (some bare_circle) bare (some ann) ≡ ret (ok (variation "on" "true"))
unfolding evaluate_flag on_variation found_variation find_variation evaluate_distribution
bare_on = refl

on_listed : contains (needs "circle").variations "on" ≡ true
unfolding contains
on_listed = refl

check_pre_requisite_iff_example :
    (check_pre_requisite runtime 2 2 (some query) dark_mode (some ann) ≡ ret (true, none))
    ↔ Passes runtime 2 query
        (λ nested. check_pre_requisite runtime 2 1 (some query) nested (some ann))
        (some ann)
        (needs "base" ∷ [])
check_pre_requisite_iff_example =
    check_pre_requisite_iff runtime 2 1 query dark_mode (some ann) (needs "base" ∷ []) refl

abbrev rule : ℕ → String → ServingRule
rule priority variation = record {
  clauses = names "staff" ∷ [];
  priority = pos priority;
  rule_id = variation;
  serve = record { distribution = none; variation = some variation };
}

abbrev two_rules : List ServingRule
two_rules = rule 2 "low" ∷ rule 1 "high" ∷ []

abbrev member : Included runtime
member = is_target_included_or_excluded_in_segment runtime 2 (some query)

-- The rule of the lower number wins.
ann_high : evaluate_rules runtime member two_rules (some ann) ≡ ret "high"
unfolding evaluate_rules rules_loop sort_rules insert_rule evaluate_clauses evaluate_clause
    evaluate_values operate is_target_included_or_excluded_in_segment segments_loop visit_segment
    is_target_in_list identifier_in get_attr_value
ann_high = refl

apart : pos 2 ≢ pos 1
apart = ground arith

two_rules-HasDistinct : HasDistinct two_rules
two_rules-HasDistinct = ((apart, tt), (tt, tt))

evaluate_rules-perm_example :
    evaluate_rules runtime member two_rules (some ann)
    ≡ evaluate_rules runtime member (rule 1 "high" ∷ rule 2 "low" ∷ []) (some ann)
evaluate_rules-perm_example =
    evaluate_rules-perm runtime member (some ann) (Permᴰ.swap refl refl) two_rules-HasDistinct
