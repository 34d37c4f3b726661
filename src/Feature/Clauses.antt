-- ===== src/Feature/Clauses.antt =====
-- The clauses of evaluation/feature.go against those of evaluation/evaluator.go, on attributes that are
-- texts.
use ff_golang_server_sdk.Common.{
  String, ◌≡◌, ◌≢◌, refl, sym, Bool, false, Bool-cases, ◌⊎◌, inl, inr, some, List, [], ◌∷◌, ◌==◌,
  eq_iff,
}
use ff_golang_server_sdk.Common.Run.{Run, ret, ok}
use ff_golang_server_sdk.Go.{Runtime}
use ff_golang_server_sdk.Rest
use ff_golang_server_sdk.Target.{Target, string_value, get_attr_value, is_valid, clause_object}
use ff_golang_server_sdk.Types.Text
use ff_golang_server_sdk.Types.Text.{text}
use ff_golang_server_sdk.Evaluator.{
  starts_with_operator, ends_with_operator, contains_operator, equal_operator,
  equal_sensitive_operator, segment_match_operator,
}
use ff_golang_server_sdk.Evaluator.Clause
use ff_golang_server_sdk.Evaluator.Clause.{Included, operate, evaluate_values}
use ff_golang_server_sdk.Feature.{Clause, Segments}
use ff_golang_server_sdk.Feature
use ff_golang_server_sdk.Feature.Operator.{operator_of, get_operator}
use ff_golang_server_sdk.Feature.SegmentRules.{apply_operator, evaluate_clause}

-- The same clause, in the older data.
abbrev pub from_clause : Rest.Clause → Clause
from_clause c = record {
  attribute = c.attribute;
  id = c.id;
  negate = c.negate;
  op = c.op;
  value = c.values;
}

-- The operators that both evaluations read alike.
abbrev pub IsShared : String → Type 0
IsShared op =
    (op ≡ starts_with_operator)
    ⊎ (op ≡ ends_with_operator)
    ⊎ (op ≡ contains_operator)
    ⊎ (op ≡ equal_operator)
    ⊎ (op ≡ equal_sensitive_operator)

-- A clause with such an operator on an attribute of the target that is a text.
pub record IsTextClause (rt : Runtime) (t : Target rt.Float) (c : Rest.Clause) : Type 0 where
  pub named : c.attribute ≢ ""
  pub value : String
  pub held : get_attr_value rt (some t) c.attribute ≡ string_value value
  pub shared : IsShared c.op

module _ (rt : Runtime) (inner : Included rt) (t : Target rt.Float) where
  module _ (attribute id : String) (negate : Bool) where
    abbrev clause_of : String → List String → Clause
    clause_of op values = record {
      attribute = attribute;
      id = id;
      negate = negate;
      op = op;
      value = values;
    }

    -- What both make of an operator that they share.
    shared-operate :
        (op s : String) (values : List String)
        → IsShared op
        → evaluate_values rt inner op (string_value s) values (some t)
          ≡ ret (apply_operator (clause_of op values) (some (text rt s)))
    unfolding evaluate_values operate apply_operator Text.starts_with Text.ends_with Text.contains
        Text.equal Text.equal_sensitive is_valid clause_object
    shared-operate op s [] (inl e) = rw e refl
    shared-operate op s [] (inr (inl e)) = rw e refl
    shared-operate op s [] (inr (inr (inl e))) = rw e refl
    shared-operate op s [] (inr (inr (inr (inl e)))) = rw e refl
    shared-operate op s [] (inr (inr (inr (inr e)))) = rw e refl
    shared-operate op s (v ∷ vs) (inl e) = rw e refl
    shared-operate op s (v ∷ vs) (inr (inl e)) = rw e refl
    shared-operate op s (v ∷ vs) (inr (inr (inl e))) = rw e refl
    shared-operate op s (v ∷ vs) (inr (inr (inr (inl e)))) = rw e refl
    shared-operate op s (v ∷ vs) (inr (inr (inr (inr e)))) = rw e refl

  not_segment_match : (op : String) → IsShared op → (op == segment_match_operator) ≡ false
  not_segment_match op (inl e) = rw e refl
  not_segment_match op (inr (inl e)) = rw e refl
  not_segment_match op (inr (inr (inl e))) = rw e refl
  not_segment_match op (inr (inr (inr (inl e)))) = rw e refl
  not_segment_match op (inr (inr (inr (inr e)))) = rw e refl

  differ : (a b : String) → a ≢ b → (a == b) ≡ false
  differ a b ne = elim (Bool-cases (a == b)) [ inl e ↦ absurd (ne ((eq_iff a b).0 e)) | inr e ↦ e ]

  -- The operator that the older evaluation makes of such a clause's attribute.
  pub get_operator-text :
      (c : Rest.Clause) (h : IsTextClause rt t c)
      → get_operator rt t c.attribute ≡ ret (ok (some (text rt (h.value))))
  unfolding get_operator operator_of
  get_operator-text c h = rw (differ c.attribute "" (h.named)) (rw (h.held) refl)

  -- The evaluator gives such a clause a value, and it is the older operator's.
  pub evaluate_clause-text :
      (c : Rest.Clause) (h : IsTextClause rt t c)
      → Clause.evaluate_clause rt inner (some c) (some t)
        ≡ ret (apply_operator (from_clause c) (some (text rt (h.value))))
  unfolding Clause.evaluate_clause
  evaluate_clause-text c h =
      rw (h.held) (shared-operate c.attribute c.id c.negate c.op (h.value) c.values (h.shared))

  -- The older evaluation of one such clause, whatever way it evaluates segments.
  pub older_clause-same :
      (evaluate : Feature.Segment → Run Bool) (segments : Segments) (c : Rest.Clause)
      (h : IsTextClause rt t c)
      → evaluate_clause evaluate (from_clause c) segments (some (text rt (h.value)))
        ≡ Clause.evaluate_clause rt inner (some c) (some t)
  unfolding evaluate_clause
  older_clause-same evaluate segments c h =
      rw (not_segment_match c.op (h.shared)) (sym (evaluate_clause-text c h))
