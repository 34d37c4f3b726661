-- ===== src/Feature/Membership.antt =====
-- The rules of a segment in evaluation/segment.go against those in evaluation/evaluator.go.
use ff_golang_server_sdk.Common.{
  ◌≡◌, refl, ap, ◌∙◌, Bool, true, false, Bool-cases, ◌⊎◌, inl, inr, none, some, List, [], ◌∷◌, map,
  if◌then◌else◌, All, Any,
}
use ff_golang_server_sdk.Common.Run.{ret}
use ff_golang_server_sdk.Go.{Runtime}
use ff_golang_server_sdk.Rest
use ff_golang_server_sdk.Target.{Target}
use ff_golang_server_sdk.Types.Text.{text}
use ff_golang_server_sdk.Evaluator.Clause
use ff_golang_server_sdk.Evaluator.Clause.{Included}
use ff_golang_server_sdk.Feature.SegmentRules.{evaluate_segment_rules, apply_operator, no_segment}
use ff_golang_server_sdk.Feature.Clauses.{
  from_clause, IsTextClause, get_operator-text, evaluate_clause-text, older_clause-same,
}

module _ (rt : Runtime) (inner : Included rt) (t : Target rt.Float) where
  -- What the evaluator says of one clause.
  abbrev pub Holds : Bool → Rest.Clause → Type 0
  Holds b c = Clause.evaluate_clause rt inner (some c) (some t) ≡ ret b

  pub decided : (c : Rest.Clause) → IsTextClause rt t c → Holds true c ⊎ Holds false c
  decided c h = elim (Bool-cases (apply_operator (from_clause c) (some (text rt (h.value))))) [
    | inl e ↦ inl (evaluate_clause-text rt inner t c h ∙ ap ret e)
    | inr e ↦ inr (evaluate_clause-text rt inner t c h ∙ ap ret e)
  ]

  -- One rule, with the rules behind it.
  pub rule_step :
      (b : Bool) (c : Rest.Clause) (rules : List Rest.Clause)
      → IsTextClause rt t c
      → Holds b c
      → evaluate_segment_rules rt (map from_clause (c ∷ rules)) t
        ≡ (if b then ret true else evaluate_segment_rules rt (map from_clause rules) t)
  unfolding evaluate_segment_rules
  rule_step b c rules h e =
      rw (get_operator-text rt inner t c h)
        (rw (older_clause-same rt inner t (no_segment rt) none c h) (rw e refl))

  -- Rules of which one holds.
  pub rules-some :
      (rules : List Rest.Clause)
      → All (IsTextClause rt t) rules
      → Any (Holds true) rules
      → evaluate_segment_rules rt (map from_clause rules) t ≡ ret true
  rules-some [] hs x = absurd x
  rules-some (c ∷ rules) (h, hs) (inl e) = rule_step true c rules h e
  rules-some (c ∷ rules) (h, hs) (inr x) = elim (decided c h) [
    | inl e ↦ rule_step true c rules h e
    | inr e ↦ rule_step false c rules h e ∙ rules-some rules hs x
  ]

  -- Rules of which none holds.
  pub rules-none :
      (rules : List Rest.Clause)
      → All (IsTextClause rt t) rules
      → All (Holds false) rules
      → evaluate_segment_rules rt (map from_clause rules) t ≡ ret false
  unfolding evaluate_segment_rules
  rules-none [] hs x = refl
  rules-none (c ∷ rules) (h, hs) (e, es) = rule_step false c rules h e ∙ rules-none rules hs es

  -- Clauses of which one does not hold, where all end.
  pub clauses-some :
      (rules : List Rest.Clause)
      → All (IsTextClause rt t) rules
      → Any (Holds false) rules
      → Clause.evaluate_clauses rt inner rules (some t) ≡ ret false
  unfolding Clause.evaluate_clauses
  clauses-some [] hs x = absurd x
  clauses-some (c ∷ rules) (h, hs) (inl e) = rw e refl
  clauses-some (c ∷ rules) (h, hs) (inr x) = elim (decided c h) [
    | inl e ↦ rw e (clauses-some rules hs x)
    | inr e ↦ rw e refl
  ]
