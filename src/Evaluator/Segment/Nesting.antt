-- ===== src/Evaluator/Segment/Nesting.antt =====
-- `isTargetIncludedOrExcludedInSegment` of evaluation/evaluator.go on segments whose rules name
-- segments: whether it returns, by a rank of the segments.
use ff_golang_server_sdk.Common.{
  ℕ, zero, suc, ◌≤◌, ◌<◌, String, ◌≡◌, ◌≢◌, refl, ◌&&◌, not, Bool, true, false, Option, none, some,
  List, [], ◌∷◌, eq_iff, ◌==◌, arith, if◌then◌else◌, Bool-cases, inl, inr, All,
}
use ff_golang_server_sdk.Common.Run.{Run, ret, no_fuel, Returns, Returns-bind, Result, ok, err}
use ff_golang_server_sdk.Go.{Runtime}
use ff_golang_server_sdk.Rest
use ff_golang_server_sdk.Rest.{Clause}
use ff_golang_server_sdk.Target.{Target, Value, get_attr_value, is_valid, clause_object}
use ff_golang_server_sdk.Errors.{Error}
use ff_golang_server_sdk.Evaluator.{Query, segment_match_operator}
use ff_golang_server_sdk.Evaluator.Clause.{
  Included, operate, evaluate_values, evaluate_clause, evaluate_clauses,
}
use ff_golang_server_sdk.Evaluator.Segment.{
  is_target_in_list, segment_rules, visit_segment, visit_found, segments_loop,
  is_target_included_or_excluded_in_segment,
}

module _ (rt : Runtime) (inner : Included rt) (t : Target rt.Float) where
  operate-Returns :
      (op object value : String) (values : List String)
      → (op ≡ segment_match_operator → Returns (inner values (some t)))
      → Returns (operate rt inner op object value values (some t))
  unfolding operate
  operate-Returns op object value values h = ground (arith, eq_iff op segment_match_operator, h)

  values-Returns :
      (op : String) (v : Value rt.Float) (values : List String)
      → (op ≡ segment_match_operator → values ≢ [] → Returns (inner values (some t)))
      → Returns (evaluate_values rt inner op v values (some t))
  unfolding evaluate_values
  values-Returns op v [] h = tt
  values-Returns op v (x ∷ values) h = elim (Bool-cases (op == "")) [
    | inl e ↦ rw e tt
    | inr e ↦ rw e (elim (Bool-cases (not (op == segment_match_operator) && not (is_valid v))) [
      | inl missing ↦ rw missing tt
      | inr here ↦ rw here (
          operate-Returns op (clause_object v) x (x ∷ values)
            (λ p. h p (λ (c : x ∷ values ≡ []). cc)))
    ])
  ]

  -- Each segment that the clauses name is answered.
  abbrev pub Answers : List Clause → Type 0
  Answers =
      All (λ c. c.op ≡ segment_match_operator → c.values ≢ [] → Returns (inner c.values (some t)))

  pub clauses-Returns :
      (clauses : List Clause)
      → Answers clauses
      → Returns (evaluate_clauses rt inner clauses (some t))
  unfolding evaluate_clauses evaluate_clause
  clauses-Returns [] h = tt
  clauses-Returns (c ∷ clauses) h =
      Returns-bind (evaluate_clause rt inner (some c) (some t))
        (λ matched. if matched then evaluate_clauses rt inner clauses (some t) else ret false)
        (values-Returns c.op (get_attr_value rt (some t) c.attribute) c.values h.0)
        (λ matched ran. after matched (clauses-Returns clauses h.1))
    where
      after :
          (matched : Bool)
          → Returns (evaluate_clauses rt inner clauses (some t))
          → Returns (if matched then evaluate_clauses rt inner clauses (some t) else ret false)
      after true ih = ih
      after false ih = tt

  rules-Returns :
      (rules : Option (List Clause))
      → ((clauses : List Clause) → rules ≡ some clauses → Answers clauses)
      → Returns (segment_rules rt inner rules (some t))
  rules-Returns none h = tt
  rules-Returns (some clauses) h = clauses-Returns clauses (h clauses refl)

  visit-Returns :
      (s : Rest.Segment) (rest : Run Bool)
      → Returns (segment_rules rt inner s.rules (some t))
      → Returns rest
      → Returns (visit_segment rt inner s (some t) rest)
  unfolding visit_segment
  visit-Returns s rest h more = elim (Bool-cases (is_target_in_list (some t) s.excluded)) [
    | inl e ↦ rw e tt
    | inr e ↦ rw e (elim (Bool-cases (is_target_in_list (some t) s.included)) [
      | inl i ↦ rw i tt
      | inr i ↦ rw i (
          Returns-bind (segment_rules rt inner s.rules (some t))
            (λ matched. if matched then ret true else rest) h (λ matched ran. after matched))
    ])
  ]
    where
      after : (matched : Bool) → Returns (if matched then ret true else rest)
      after true = tt
      after false = more

-- The clauses name segments of a rank below `n` only.
abbrev pub NamesBelow : (String → ℕ) → ℕ → List Clause → Type 0
NamesBelow rank n = All (λ c. c.op ≡ segment_match_operator → All (λ v. rank v < n) c.values)

-- The rules of each segment name segments of a lower rank only.
pub record IsRanked (q : Query) (rank : String → ℕ) : Type 0 where
  pub below :
      (id : String) (s : Rest.Segment) (clauses : List Clause)
      → q.get_segment id ≡ ok s
      → s.rules ≡ some clauses
      → NamesBelow rank (rank id) clauses

module _ (rt : Runtime) (q : Query) (rank : String → ℕ) (ranked : IsRanked q rank)
    (t : Target rt.Float) where
  abbrev pub answer : ℕ → Included rt
  answer fuel = is_target_included_or_excluded_in_segment rt fuel (some q)

  -- The induction on the fuel goes through a call for the segments that the rules name.
  abbrev pub Ends : ℕ → Type 0
  Ends fuel =
      (ids : List String)
      → All (λ id. rank id < fuel) ids
      → ids ≢ []
      → Returns (answer fuel ids (some t))

  pub names-Answers :
      (fuel n : ℕ) (clauses : List Clause)
      → n ≤ fuel
      → Ends fuel
      → NamesBelow rank n clauses
      → Answers rt (answer fuel) t clauses
  names-Answers fuel n [] le ends h = tt
  names-Answers fuel n (c ∷ clauses) le ends h = (
    λ op named. ends c.values (weaken c.values (h.0 op)) named,
    names-Answers fuel n clauses le ends h.1,
  )
    where
      weaken : (vs : List String) → All (λ v. rank v < n) vs → All (λ v. rank v < fuel) vs
      weaken [] k = tt
      weaken (v ∷ vs) k = (omega (arith, k.0), weaken vs k.1)

  loop-Returns :
      (fuel : ℕ) (ids : List String)
      → Ends fuel
      → All (λ id. rank id < suc fuel) ids
      → Returns (segments_loop rt (some q) (answer fuel) ids (some t))
  unfolding segments_loop
  loop-Returns fuel [] ends h = tt
  loop-Returns fuel (id ∷ ids) ends h =
      by_segment (q.get_segment id) refl (loop-Returns fuel ids ends h.1)
    where
      by_segment :
          (r : Result Error Rest.Segment)
          → q.get_segment id ≡ r
          → Returns (segments_loop rt (some q) (answer fuel) ids (some t))
          → Returns (
              visit_found rt
                (answer fuel)
                r
                (some t)
                (segments_loop rt (some q) (answer fuel) ids (some t)))
      by_segment (err x) found ih = tt
      by_segment (ok s) found ih =
          visit-Returns rt (answer fuel) t s (segments_loop rt (some q) (answer fuel) ids (some t))
            (rules-Returns rt (answer fuel) t s.rules (λ clauses e.
              names-Answers fuel (rank id) clauses (omega (arith, h.0)) ends
                (ranked.below id s clauses found e)))
            ih

  segments-Ends : (fuel : ℕ) → Ends fuel
  unfolding is_target_included_or_excluded_in_segment
  segments-Ends zero [] h named = absurd (named refl)
  segments-Ends zero (id ∷ ids) h named = absurd (omega (arith, h.0))
  segments-Ends (suc fuel) ids h named = loop-Returns fuel ids (segments-Ends fuel) h

  -- Where the rules of the segments name segments of a lower rank only, fuel above the ranks of the
  -- listed segments lets the test return.
  pub is_target_included_or_excluded_in_segment-Returns :
      (fuel : ℕ) (ids : List String)
      → All (λ id. rank id ≤ fuel) ids
      → Returns (is_target_included_or_excluded_in_segment rt (suc fuel) (some q) ids (some t))
  unfolding is_target_included_or_excluded_in_segment
  is_target_included_or_excluded_in_segment-Returns fuel ids h =
      loop-Returns fuel ids (segments-Ends fuel) (strict ids h)
    where
      strict : (l : List String) → All (λ id. rank id ≤ fuel) l → All (λ id. rank id < suc fuel) l
      strict [] k = tt
      strict (x ∷ l) k = (omega (arith, k.0), strict l k.1)

match-clause :
    (rt : Runtime) (inner : Included rt) (t : Target rt.Float) (c : Clause) (v : String)
    (vs : List String)
    → c.op ≡ segment_match_operator
    → c.values ≡ v ∷ vs
    → evaluate_clause rt inner (some c) (some t) ≡ inner (v ∷ vs) (some t)
unfolding evaluate_clause evaluate_values operate
match-clause rt inner t c v vs e f = rw e (rw f refl)

-- A segment whose first clause matches the segment itself sends the test into a recursion without end,
-- for every target that the segment's lists leave open: no fuel is enough.
pub self_reference_diverges :
    (rt : Runtime) (q : Query) (t : Target rt.Float) (id : String) (s : Rest.Segment) (c : Clause)
    (cs : List Clause) (vs : List String)
    → q.get_segment id ≡ ok s
    → is_target_in_list (some t) s.excluded ≡ false
    → is_target_in_list (some t) s.included ≡ false
    → s.rules ≡ some (c ∷ cs)
    → c.op ≡ segment_match_operator
    → c.values ≡ id ∷ vs
    → (fuel : ℕ) (ids : List String)
    → is_target_included_or_excluded_in_segment rt fuel (some q) (id ∷ ids) (some t) ≡ no_fuel
unfolding is_target_included_or_excluded_in_segment segments_loop visit_segment evaluate_clauses
self_reference_diverges rt q t id s c cs vs found out unlisted rules op names zero ids = refl
self_reference_diverges rt q t id s c cs vs found out unlisted rules op names (suc fuel) ids =
    rw found (
      rw out (
        rw unlisted (
          rw rules (
            rw
              (match-clause rt (is_target_included_or_excluded_in_segment rt fuel (some q)) t c id
                vs op names)
              (rw (
                self_reference_diverges rt q t id s c cs vs found out unlisted rules op names fuel
                  vs))))))
