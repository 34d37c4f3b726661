-- ===== src/Evaluator/Clause.antt =====
-- `evaluateClause` and `evaluateClauses` of evaluation/evaluator.go. The call into segments is passed
-- in, as `included`; Evaluator/Segment.antt ties the knot.
use ff_golang_server_sdk.Common.{
  String, Bool, true, false, ◌&&◌, not, Option, none, some, List, [], ◌∷◌, ◌==◌, if◌then◌else◌,
}
use ff_golang_server_sdk.Common.Run.{Run, ret, ◌>>=◌}
use ff_golang_server_sdk.Go.{Runtime}
use ff_golang_server_sdk.Go.Text.{has_prefix, has_suffix, contains_text, equal_fold, gt_text}
use ff_golang_server_sdk.Rest.{Clause}
use ff_golang_server_sdk.Target.{Target, Value, get_attr_value, is_valid, clause_object}
use ff_golang_server_sdk.Evaluator.{
  segment_match_operator, match_operator, in_operator, equal_operator, gt_operator,
  starts_with_operator, ends_with_operator, contains_operator, equal_sensitive_operator,
}

-- `contains` of evaluation/string_slice.go, and the loop of the operator `in`
unfoldable pub contains : List String → String → Bool
contains [] q = false
contains (val ∷ input) q = if val == q then true else contains input q

abbrev found_or_false : Option Bool → Bool
found_or_false none = false
found_or_false (some found) = found

module _ (rt : Runtime) where
  abbrev pub Included : Type 0
  Included = List String → Option (Target rt.Float) → Run Bool

  module _ (included : Included) where
    -- The switch over the operator.
    unfoldable pub operate :
        String → String → String → List String → Option (Target rt.Float) → Run Bool
    unfolding contains
    operate operator object value values target =
        if operator == starts_with_operator
        then ret (has_prefix object value)
        else if operator == ends_with_operator
        then ret (has_suffix object value)
        else if operator == match_operator
        then ret (found_or_false (rt.match_string value object))
        else if operator == contains_operator
        then ret (contains_text object value)
        else if operator == equal_operator
        then ret (equal_fold rt object value)
        else if operator == equal_sensitive_operator
        then ret (object == value)
        else if operator == in_operator
        then ret (contains values object)
        else if operator == gt_operator
        then ret (gt_text object value)
        else if operator == segment_match_operator
        then included values target
        else ret false

    unfoldable pub evaluate_values :
        String → Value rt.Float → List String → Option (Target rt.Float) → Run Bool
    unfolding operate
    evaluate_values operator attr_value [] target = ret false
    evaluate_values operator attr_value (value ∷ values) target =
        if operator == ""
        then ret false
        else if not (operator == segment_match_operator) && not (is_valid attr_value)
        then ret false
        else operate operator (clause_object attr_value) value (value ∷ values) target

    -- `evaluateClause`
    unfoldable pub evaluate_clause : Option Clause → Option (Target rt.Float) → Run Bool
    unfolding evaluate_values
    evaluate_clause none target = ret false
    evaluate_clause (some clause) target =
        evaluate_values clause.op (get_attr_value rt target clause.attribute) clause.values target

    -- `evaluateClauses`, and `evaluateRule`, which is a call of it
    unfoldable pub evaluate_clauses : List Clause → Option (Target rt.Float) → Run Bool
    evaluate_clauses [] target = ret true
    evaluate_clauses (clause ∷ clauses) target = do
      matched ← evaluate_clause (some clause) target
      if matched then evaluate_clauses clauses target else ret false
