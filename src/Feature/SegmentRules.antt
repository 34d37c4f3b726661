-- ===== src/Feature/SegmentRules.antt =====
-- `Clause.Evaluate` and `Clauses.Evaluate` of evaluation/feature.go, and evaluation/segment.go. The rules
-- of a segment are given no segments, so that a segment cannot lead to another.
use ff_golang_server_sdk.Common.{
  String, Bool, true, false, Option, none, some, List, [], ◌∷◌, ◌==◌, if◌then◌else◌,
}
use ff_golang_server_sdk.Common.Dict.{lookup}
use ff_golang_server_sdk.Common.Run.{Run, ret, panic, ◌>>=◌, Result, ok, err}
use ff_golang_server_sdk.Go.{Runtime}
use ff_golang_server_sdk.Go.Text.{equal_fold}
use ff_golang_server_sdk.Target.{Target}
use ff_golang_server_sdk.Types.{ValueType}
use ff_golang_server_sdk.Evaluator.{
  segment_match_operator, in_operator, equal_operator, gt_operator, starts_with_operator,
  ends_with_operator, contains_operator, equal_sensitive_operator,
}
use ff_golang_server_sdk.Feature.{Clause, Segments}
use ff_golang_server_sdk.Feature
use ff_golang_server_sdk.Feature.Operator.{get_operator}

-- `StrSlice.Contains`, `StrSlice.ContainsSensitive`
unfoldable pub contains_fold : Runtime → List String → String → Bool
contains_fold rt [] s = false
contains_fold rt (val ∷ slice) s = if equal_fold rt val s then true else contains_fold rt slice s

unfoldable pub contains_sensitive : List String → String → Bool
contains_sensitive [] s = false
contains_sensitive (val ∷ slice) s = if val == s then true else contains_sensitive slice s

-- The switch of `Clause.Evaluate`, on an operator that is not nil.
unfoldable pub apply_operator : Clause → Option ValueType → Bool
apply_operator clause none = false
apply_operator clause (some operator) =
    if clause.op == in_operator
    then operator.in_values clause.value
    else if clause.op == equal_operator
    then operator.equal clause.value
    else if clause.op == gt_operator
    then operator.greater_than clause.value
    else if clause.op == starts_with_operator
    then operator.starts_with clause.value
    else if clause.op == ends_with_operator
    then operator.ends_with clause.value
    else if clause.op == contains_operator
    then operator.contains clause.value
    else if clause.op == equal_sensitive_operator
    then operator.equal_sensitive clause.value
    else false

-- The loop over the segments that a clause names; a name that the map lacks is passed over.
unfoldable pub some_segment :
    (Feature.Segment → Run Bool) → List (String × Feature.Segment) → List String → Run Bool
some_segment evaluate segments [] = ret false
some_segment evaluate segments (name ∷ names) =
    let rest = some_segment evaluate segments names in
    elim (lookup name segments) [
      | none ↦ rest
      | some segment ↦ evaluate segment >>= λ matched. if matched then ret true else rest
    ]

abbrev pub in_segments : (Feature.Segment → Run Bool) → Segments → List String → Run Bool
in_segments evaluate none names = ret false
in_segments evaluate (some segments) names = some_segment evaluate segments names

-- `Clause.Evaluate`, on the way in which a segment is evaluated
unfoldable pub evaluate_clause :
    (Feature.Segment → Run Bool) → Clause → Segments → Option ValueType → Run Bool
unfolding apply_operator some_segment
evaluate_clause evaluate clause segments operator =
    if clause.op == segment_match_operator
    then in_segments evaluate segments clause.value
    else ret (apply_operator clause operator)

module _ (rt : Runtime) where
  -- No segment is reached from the rules of a segment.
  abbrev pub no_segment : Feature.Segment → Run Bool
  no_segment segment = panic

  abbrev pub rule_matches : Clause → Result String (Option ValueType) → Run Bool
  rule_matches clause (err e) = ret false
  rule_matches clause (ok op) = evaluate_clause no_segment clause none op

  -- `SegmentRules.Evaluate`, with nil segments: some rule matches. An error of an operator goes on with
  -- the next rule.
  unfoldable pub evaluate_segment_rules : List Clause → Target rt.Float → Run Bool
  unfolding evaluate_clause get_operator
  evaluate_segment_rules [] target = ret false
  evaluate_segment_rules (clause ∷ rules) target = do
    op ← get_operator rt target clause.attribute
    matched ← rule_matches clause op
    if matched then ret true else evaluate_segment_rules rules target

  -- `Segment.Evaluate`
  unfoldable pub evaluate_segment : Target rt.Float → Feature.Segment → Run Bool
  unfolding contains_sensitive evaluate_segment_rules
  evaluate_segment target segment =
      if contains_sensitive segment.excluded target.identifier
      then ret false
      else if contains_sensitive segment.included target.identifier
      then ret true
      else evaluate_segment_rules segment.rules target

  -- `Segments.Evaluate`, in the order of the list
  unfoldable pub evaluate_segments : List (String × Feature.Segment) → Target rt.Float → Run Bool
  unfolding evaluate_segment
  evaluate_segments [] target = ret false
  evaluate_segments (entry ∷ segments) target = do
    matched ← evaluate_segment target entry.1
    if matched then ret true else evaluate_segments segments target

  -- The operator of a clause: an error leaves it nil.
  abbrev pub operator_or_nil : Result String (Option ValueType) → Option ValueType
  operator_or_nil (err e) = none
  operator_or_nil (ok op) = op

  abbrev pub clause_operator : Clause → Target rt.Float → Run (Option ValueType)
  clause_operator clause target =
      if clause.op == segment_match_operator
      then ret none
      else (get_operator rt target clause.attribute >>= λ r. ret (operator_or_nil r))

  -- `Clauses.Evaluate`
  unfoldable pub evaluate_clauses : List Clause → Target rt.Float → Segments → Run Bool
  unfolding evaluate_segment evaluate_clause get_operator
  evaluate_clauses [] target segments = ret true
  evaluate_clauses (clause ∷ clauses) target segments = do
    op ← clause_operator clause target
    matched ← evaluate_clause (evaluate_segment target) clause segments op
    if matched then evaluate_clauses clauses target segments else ret false
