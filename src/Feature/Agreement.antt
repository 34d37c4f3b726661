-- ===== src/Feature/Agreement.antt =====
-- `Segment.Evaluate` of evaluation/segment.go against `isTargetIncludedOrExcludedInSegment` of
-- evaluation/evaluator.go, on one segment.
use ff_golang_server_sdk.Common.{
  ℕ, suc, String, ◌≡◌, refl, ap, ◌∙◌, Bool, true, false, Option, none, some, List, [], ◌∷◌, map,
  if◌then◌else◌, All, Any,
}
use ff_golang_server_sdk.Common.Int.{pos}
use ff_golang_server_sdk.Common.Run.{ret, ok}
use ff_golang_server_sdk.Go.{Runtime}
use ff_golang_server_sdk.Rest
use ff_golang_server_sdk.Target.{Target}
use ff_golang_server_sdk.Evaluator.{Query}
use ff_golang_server_sdk.Evaluator.Clause.{Included, evaluate_clauses}
use ff_golang_server_sdk.Evaluator.Segment.{
  identifier_in, is_target_in_list, segments_loop, visit_segment, segment_rules,
  is_target_included_or_excluded_in_segment,
}
use ff_golang_server_sdk.Evaluator.Segment.Membership.{Lists, listed-false}
use ff_golang_server_sdk.Feature
use ff_golang_server_sdk.Feature.{Tag}
use ff_golang_server_sdk.Feature.SegmentRules.{
  evaluate_segment, evaluate_segment_rules, contains_sensitive,
}
use ff_golang_server_sdk.Feature.Clauses.{from_clause, IsTextClause}
use ff_golang_server_sdk.Feature.Membership.{Holds, rules-some, clauses-some}

abbrev identifiers_of : Option (List Rest.Target) → List String
identifiers_of none = []
identifiers_of (some targets) = map (λ u. u.identifier) targets

abbrev clauses_of : Option (List Rest.Clause) → List Feature.Clause
clauses_of none = []
clauses_of (some rules) = map from_clause rules

-- The same segment in the older data, without its tags and version, which no evaluation reads.
abbrev pub from_segment : Rest.Segment → Feature.Segment
from_segment s = record {
  identifier = s.identifier;
  name = s.name;
  created_at = s.created_at;
  modified_at = s.modified_at;
  environment = s.environment;
  excluded = identifiers_of s.excluded;
  included = identifiers_of s.included;
  rules = clauses_of s.rules;
  tags = [];
  version = pos 0;
}

contains-identifier_in :
    (identifier : String) (targets : List Rest.Target)
    → contains_sensitive (map (λ u. u.identifier) targets) identifier
      ≡ identifier_in identifier targets
unfolding contains_sensitive identifier_in
contains-identifier_in identifier [] = refl
contains-identifier_in identifier (u ∷ targets) =
    rw (contains-identifier_in identifier targets) refl

contains-is_target_in_list :
    {F : Type 0} (t : Target F) (targets : Option (List Rest.Target))
    → contains_sensitive (identifiers_of targets) t.identifier ≡ is_target_in_list (some t) targets
unfolding contains_sensitive is_target_in_list
contains-is_target_in_list t none = refl
contains-is_target_in_list t (some targets) = contains-identifier_in t.identifier targets

-- Two tests before an answer.
tests-ret :
    (x y b : Bool)
    → (if x then ret false else if y then ret true else ret b)
      ≡ ret (if x then false else if y then true else b)
tests-ret true y b = refl
tests-ret false true b = refl
tests-ret false false b = refl

answer-ret : (b : Bool) → (if b then ret true else ret false) ≡ ret b
answer-ret true = refl
answer-ret false = refl

module _ (rt : Runtime) (fuel : ℕ) (q : Query) (t : Target rt.Float) (identifier : String)
    (s : Rest.Segment) (served : q.get_segment identifier ≡ ok s) where
  -- The nested calls for segments.
  abbrev pub nested : Included rt
  nested = is_target_included_or_excluded_in_segment rt fuel (some q)

  -- No list of rules, or a list of one rule, which is on a text.
  abbrev pub IsSingle : Option (List Rest.Clause) → Type 0
  IsSingle none = Unit
  IsSingle (some []) = ⊥
  IsSingle (some (c ∷ [])) = IsTextClause rt t c
  IsSingle (some (c ∷ d ∷ cs)) = ⊥

  -- What the lists of the segment leave to its rules.
  abbrev behind_lists : Bool → Bool
  behind_lists b =
      if is_target_in_list (some t) s.excluded
      then false
      else if is_target_in_list (some t) s.included
      then true
      else b

  older-lists :
      (b : Bool)
      → evaluate_segment_rules rt (clauses_of s.rules) t ≡ ret b
      → evaluate_segment rt t (from_segment s) ≡ ret (behind_lists b)
  unfolding evaluate_segment
  older-lists b r = rw (contains-is_target_in_list t s.excluded) (
      rw (contains-is_target_in_list t s.included) (
        rw r (
          tests-ret (is_target_in_list (some t) s.excluded) (is_target_in_list (some t) s.included)
            b)))

  newer-lists :
      (b : Bool)
      → segment_rules rt nested s.rules (some t) ≡ ret b
      → is_target_included_or_excluded_in_segment rt (suc fuel) (some q) (identifier ∷ []) (some t)
        ≡ ret (behind_lists b)
  unfolding is_target_included_or_excluded_in_segment segments_loop visit_segment
  newer-lists b r = rw served (
      rw r (
        rw (answer-ret b) (
          tests-ret (is_target_in_list (some t) s.excluded) (is_target_in_list (some t) s.included)
            b)))

  -- When the list of rules of the segment is present and empty, and the target is in neither list of the
  -- segment, the older evaluation has not the target in the segment and the evaluator has.
  pub evaluate_segment-no_rules :
      s.rules ≡ some []
      → ¬ Lists t.identifier s.excluded
      → ¬ Lists t.identifier s.included
      → (evaluate_segment rt t (from_segment s) ≡ ret false)
        × (is_target_included_or_excluded_in_segment rt
              (suc fuel)
              (some q)
              (identifier ∷ [])
              (some t)
            ≡ ret true)
  unfolding evaluate_segment_rules evaluate_clauses
  evaluate_segment-no_rules e out apart =
      let behind : (b : Bool) → behind_lists b ≡ b = λ b.
        rw (listed-false rt q nested t s.excluded out)
          (rw (listed-false rt q nested t s.included apart) refl) in
      (
        older-lists false (rw e refl) ∙ ap ret (behind false),
        newer-lists true (rw e refl) ∙ ap ret (behind true),
      )

  -- When the target is in neither list of the segment, and one of its rules holds of it and another one
  -- does not, all on texts and with shared operators, the older evaluation has the target in the segment
  -- and the evaluator has not.
  pub evaluate_segment-differs :
      (rules : List Rest.Clause)
      → s.rules ≡ some rules
      → ¬ Lists t.identifier s.excluded
      → ¬ Lists t.identifier s.included
      → All (IsTextClause rt t) rules
      → Any (Holds rt nested t true) rules
      → Any (Holds rt nested t false) rules
      → (evaluate_segment rt t (from_segment s) ≡ ret true)
        × (is_target_included_or_excluded_in_segment rt
              (suc fuel)
              (some q)
              (identifier ∷ [])
              (some t)
            ≡ ret false)
  evaluate_segment-differs rules e out apart texts one other =
      let behind : (b : Bool) → behind_lists b ≡ b = λ b.
        rw (listed-false rt q nested t s.excluded out)
          (rw (listed-false rt q nested t s.included apart) refl) in
      (
        older-lists true (rw e (rules-some rt nested t rules texts one)) ∙ ap ret (behind true),
        newer-lists false (rw e (clauses-some rt nested t rules texts other))
            ∙ ap ret (behind false),
      )
