-- ===== src/Evaluator/Flag/Total.antt =====
-- `evaluateFlag` of evaluation/evaluator.go on well-formed flags: whether it returns.
use ff_golang_server_sdk.Common.{
  ℕ, suc, ◌≤◌, ◌<◌, String, ◌≢◌, Bool, true, false, Option, none, some, List, [], ◌∷◌, ◌==◌, arith,
  if◌then◌else◌, Bool-cases, inl, inr, All,
}
use ff_golang_server_sdk.Common.Int.{ltb_ℤ}
use ff_golang_server_sdk.Common.Run.{Run, ret, Returns, Returns-bind}
use ff_golang_server_sdk.Go.{Runtime}
use ff_golang_server_sdk.Rest.{
  FeatureConfig, ServingRule, VariationMap, TargetMap, Serve, feature_state_on,
}
use ff_golang_server_sdk.Target.{Target}
use ff_golang_server_sdk.Evaluator.{Query}
use ff_golang_server_sdk.Evaluator.Clause.{Included, evaluate_clauses}
use ff_golang_server_sdk.Evaluator.Segment.{is_target_included_or_excluded_in_segment}
use ff_golang_server_sdk.Evaluator.Segment.Nesting.{
  NamesBelow, IsRanked, clauses-Returns, names-Answers,
  is_target_included_or_excluded_in_segment-Returns,
}
use ff_golang_server_sdk.Evaluator.Rules.{
  insert_rule, sort_rules, serve_or, rules_loop, evaluate_rules, targets_loop, named_target,
  in_target_segments, variation_map_loop, evaluate_variation_map,
}
use ff_golang_server_sdk.Evaluator.Flag.{
  from_map, from_rules, on_variation, found_variation, evaluate_flag, from_default,
}

All-insert :
    (P : ServingRule → Type 0) (r : ServingRule) (rules : List ServingRule)
    → P r
    → All P rules
    → All P (insert_rule r rules)
unfolding insert_rule
All-insert P r [] p h = (p, tt)
All-insert P r (s ∷ rules) p h = elim (Bool-cases (ltb_ℤ s.priority r.priority)) [
  | inl e ↦ rw e (h.0, All-insert P r rules p h.1)
  | inr e ↦ rw e (p, h)
]

All-sort :
    (P : ServingRule → Type 0) (rules : List ServingRule) → All P rules → All P (sort_rules rules)
unfolding sort_rules
All-sort P [] h = tt
All-sort P (r ∷ rules) h = All-insert P r (sort_rules rules) h.0 (All-sort P rules h.1)

-- The targets of an entry have their identifiers.
abbrev pub HasIdentifiers : Option (List TargetMap) → Type 0
HasIdentifiers none = Unit
HasIdentifiers (some targets) = All (λ u. u.identifier ≢ none) targets

abbrev pub SegmentsBelow : (String → ℕ) → ℕ → Option (List String) → Type 0
SegmentsBelow rank n none = Unit
SegmentsBelow rank n (some ids) = All (λ id. rank id < n) ids

abbrev pub MapsBelow : (String → ℕ) → ℕ → Option (List VariationMap) → Type 0
MapsBelow rank n none = Unit
MapsBelow rank n (some maps) =
    All (λ m. HasIdentifiers m.targets × SegmentsBelow rank n m.target_segments) maps

abbrev pub RulesBelow : (String → ℕ) → ℕ → Option (List ServingRule) → Type 0
RulesBelow rank n none = Unit
RulesBelow rank n (some rules) = All (λ r. NamesBelow rank n r.clauses) rules

-- A flag whose map entries name their targets, and which names segments of a rank below `n`.
pub record IsWellFormed (rank : String → ℕ) (n : ℕ) (fc : FeatureConfig) : Type 0 where
  pub maps : MapsBelow rank n fc.variation_to_target_map
  pub rules : RulesBelow rank n fc.rules

abbrev member_of : (rt : Runtime) → Query → ℕ → Included rt
member_of rt q depth = is_target_included_or_excluded_in_segment rt (suc depth) (some q)

pub if-Returns :
    {A : Type 0} (b : Bool) (m n : Run A) → Returns m → Returns n → Returns (if b then m else n)
if-Returns true m n h k = h
if-Returns false m n h k = k

module _ (rt : Runtime) (q : Query) (rank : String → ℕ) (ranked : IsRanked q rank) (depth : ℕ)
    (t : Target rt.Float) where
  segments-Returns :
      (ids : List String)
      → All (λ id. rank id < suc depth) ids
      → Returns (member_of rt q depth ids (some t))
  segments-Returns ids h =
      is_target_included_or_excluded_in_segment-Returns rt q rank ranked t depth ids (lower ids h)
    where
      lower : (l : List String) → All (λ id. rank id < suc depth) l → All (λ id. rank id ≤ depth) l
      lower [] k = tt
      lower (x ∷ l) k = (omega (arith, k.0), lower l k.1)

  serve-Returns :
      (serve : Serve) (rest : Run String) → Returns rest → Returns (serve_or rt serve (some t) rest)
  serve-Returns serve rest h = ground arith

  rules_loop-Returns :
      (rules : List ServingRule)
      → All (λ r. NamesBelow rank (suc depth) r.clauses) rules
      → Returns (rules_loop rt (member_of rt q depth) rules (some t))
  unfolding rules_loop
  rules_loop-Returns [] h = tt
  rules_loop-Returns (r ∷ rules) h =
      Returns-bind (evaluate_clauses rt (member_of rt q depth) r.clauses (some t))
        (λ matched.
          if matched
          then serve_or rt r.serve (some t) (rules_loop rt (member_of rt q depth) rules (some t))
          else rules_loop rt (member_of rt q depth) rules (some t))
        (clauses-Returns rt (member_of rt q depth) t r.clauses (
          names-Answers rt q rank ranked t (suc depth) (suc depth) r.clauses (omega arith)
            (λ ids k named. segments-Returns ids k) h.0))
        (λ matched ran.
          if-Returns matched
            (serve_or rt r.serve (some t) (rules_loop rt (member_of rt q depth) rules (some t)))
            (rules_loop rt (member_of rt q depth) rules (some t))
            (serve-Returns r.serve (rules_loop rt (member_of rt q depth) rules (some t))
              (rules_loop-Returns rules h.1))
            (rules_loop-Returns rules h.1))

  targets_loop-Returns :
      (targets : List TargetMap) (identifier : String)
      → All (λ u. u.identifier ≢ none) targets
      → Returns (targets_loop rt (member_of rt q depth) targets identifier)
  unfolding targets_loop
  targets_loop-Returns [] identifier h = tt
  targets_loop-Returns (u ∷ targets) identifier h =
      ground (arith, h.0, targets_loop-Returns targets identifier h.1)

  named-Returns :
      (targets : Option (List TargetMap)) (identifier : String)
      → HasIdentifiers targets
      → Returns (named_target rt (member_of rt q depth) targets identifier)
  named-Returns none identifier h = tt
  named-Returns (some targets) identifier h = targets_loop-Returns targets identifier h

  in_segments-Returns :
      (ids : Option (List String))
      → SegmentsBelow rank (suc depth) ids
      → Returns (in_target_segments rt (member_of rt q depth) ids (some t))
  in_segments-Returns none h = tt
  in_segments-Returns (some ids) h = segments-Returns ids h

  variation_map_loop-Returns :
      (maps : List VariationMap)
      → MapsBelow rank (suc depth) (some maps)
      → Returns (variation_map_loop rt (member_of rt q depth) maps t)
  unfolding variation_map_loop
  variation_map_loop-Returns [] h = tt
  variation_map_loop-Returns (m ∷ maps) h =
      Returns-bind (named_target rt (member_of rt q depth) m.targets t.identifier) _
        (named-Returns m.targets t.identifier h.0.0)
        (λ named _. if-Returns named (ret m.variation) _ tt (
          Returns-bind (in_target_segments rt (member_of rt q depth) m.target_segments (some t)) _
            (in_segments-Returns m.target_segments h.0.1)
            (λ member _.
              if-Returns member (ret m.variation) _ tt (variation_map_loop-Returns maps h.1))))

module _ (rt : Runtime) (q : Query) (rank : String → ℕ) (ranked : IsRanked q rank) (depth : ℕ) where
  map-Returns :
      (maps : Option (List VariationMap)) (target : Option (Target rt.Float))
      → MapsBelow rank (suc depth) maps
      → Returns (from_map rt (member_of rt q depth) maps target)
  unfolding evaluate_variation_map
  map-Returns none target h = tt
  map-Returns (some maps) none h = tt
  map-Returns (some maps) (some t) h = variation_map_loop-Returns rt q rank ranked depth t maps h

  rules-Returns :
      (rules : Option (List ServingRule)) (target : Option (Target rt.Float))
      → RulesBelow rank (suc depth) rules
      → Returns (from_rules rt (member_of rt q depth) rules target)
  unfolding evaluate_rules
  rules-Returns none target h = tt
  rules-Returns (some rules) none h = tt
  rules-Returns (some rules) (some t) h =
      rules_loop-Returns rt q rank ranked depth t (sort_rules rules)
        (All-sort (λ r. NamesBelow rank (suc depth) r.clauses) rules h)

  on_variation-Returns :
      (fc : FeatureConfig) (target : Option (Target rt.Float))
      → IsWellFormed rank (suc depth) fc
      → Returns (on_variation rt (member_of rt q depth) fc target)
  unfolding on_variation
  on_variation-Returns fc target h =
      Returns-bind (from_map rt (member_of rt q depth) fc.variation_to_target_map target) _
        (map-Returns fc.variation_to_target_map target h.maps)
        (λ mapped _.
          Returns-bind
            (if mapped == ""
              then from_rules rt (member_of rt q depth) fc.rules target
              else ret mapped)
            (λ ruled. ret (if ruled == "" then from_default rt fc.default_serve target else ruled))
            (if-Returns (mapped == "") _ (ret mapped) (rules-Returns fc.rules target h.rules) tt)
            (λ ruled _. tt))

  -- A well-formed flag is evaluated for every target, a nil one too: with fuel above the ranks of the
  -- segments that it names, `evaluateFlag` returns.
  pub evaluate_flag-Returns :
      (fc : FeatureConfig) (target : Option (Target rt.Float))
      → IsWellFormed rank (suc depth) fc
      → Returns (evaluate_flag rt (suc depth) (some q) fc target)
  unfolding evaluate_flag
  evaluate_flag-Returns fc target h =
      Returns-bind
        (if fc.state == feature_state_on
          then on_variation rt (member_of rt q depth) fc target
          else ret fc.off_variation)
        (λ variation. ret (found_variation fc variation))
        (if-Returns (fc.state == feature_state_on) _ (ret fc.off_variation)
          (on_variation-Returns fc target h) tt)
        (λ variation _. tt)
