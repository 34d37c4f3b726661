-- ===== src/Evaluator/Rules.antt =====
-- `evaluateRules` and `evaluateVariationMap` of evaluation/evaluator.go.
pub mod Order
use ff_golang_server_sdk.Common.{
  String, Bool, true, false, ◌&&◌, not, Option, none, some, List, [], ◌∷◌, ◌==◌, if◌then◌else◌,
}
use ff_golang_server_sdk.Common.Int.{ltb_ℤ}
use ff_golang_server_sdk.Common.Run.{Run, ret, panic, ◌>>=◌}
use ff_golang_server_sdk.Go.{Runtime}
use ff_golang_server_sdk.Rest.{ServingRule, Serve, VariationMap, TargetMap}
use ff_golang_server_sdk.Target.{Target}
use ff_golang_server_sdk.Bucket.{evaluate_distribution}
use ff_golang_server_sdk.Evaluator.Clause.{Included, evaluate_clauses}

-- `sort.SliceStable` by priority, as an insertion sort.
unfoldable pub insert_rule : ServingRule → List ServingRule → List ServingRule
insert_rule r [] = r ∷ []
insert_rule r (s ∷ rules) =
    if ltb_ℤ s.priority r.priority then s ∷ insert_rule r rules else r ∷ s ∷ rules

unfoldable pub sort_rules : List ServingRule → List ServingRule
sort_rules [] = []
sort_rules (r ∷ rules) = insert_rule r (sort_rules rules)

module _ (rt : Runtime) where
  -- What a matched rule serves; `rest` is the loop over the rules behind it.
  abbrev pub serve_or : Serve → Option (Target rt.Float) → Run String → Run String
  serve_or serve target rest = elim serve.distribution [
    | some d ↦ ret (evaluate_distribution rt (some d) target)
    | none ↦ elim serve.variation [ some v ↦ ret v | none ↦ rest ]
  ]

  module _ (included : Included rt) where
    unfoldable pub rules_loop : List ServingRule → Option (Target rt.Float) → Run String
    rules_loop [] target = ret ""
    rules_loop (rule ∷ rules) target =
        let rest = rules_loop rules target in
        evaluate_clauses rt included rule.clauses target >>= λ matched.
        if matched then serve_or rule.serve target rest else rest

    -- `evaluateRules`
    unfoldable pub evaluate_rules : List ServingRule → Option (Target rt.Float) → Run String
    unfolding rules_loop
    evaluate_rules rules none = ret ""
    evaluate_rules rules (some t) = rules_loop (sort_rules rules) (some t)

    -- The loop over the targets of one entry. A nil `Identifier` panics.
    unfoldable pub targets_loop : List TargetMap → String → Run Bool
    targets_loop [] identifier = ret false
    targets_loop (t ∷ targets) identifier =
        let rest = targets_loop targets identifier in
        elim t.identifier [
          | none ↦ panic
          | some id ↦ if not (id == "") && id == identifier then ret true else rest
        ]

    abbrev pub named_target : Option (List TargetMap) → String → Run Bool
    named_target none identifier = ret false
    named_target (some targets) identifier = targets_loop targets identifier

    abbrev pub in_target_segments : Option (List String) → Option (Target rt.Float) → Run Bool
    in_target_segments none target = ret false
    in_target_segments (some identifiers) target = included identifiers target

    unfoldable pub variation_map_loop : List VariationMap → Target rt.Float → Run String
    unfolding targets_loop
    variation_map_loop [] target = ret ""
    variation_map_loop (m ∷ maps) target =
        let rest = variation_map_loop maps target in
        named_target m.targets target.identifier >>= λ named.
        if named
        then ret m.variation
        else (in_target_segments m.target_segments (some target) >>= λ member.
            if member then ret m.variation else rest)

    -- `evaluateVariationMap`
    unfoldable pub evaluate_variation_map :
        List VariationMap → Option (Target rt.Float) → Run String
    unfolding variation_map_loop
    evaluate_variation_map maps none = ret ""
    evaluate_variation_map maps (some t) = variation_map_loop maps t
