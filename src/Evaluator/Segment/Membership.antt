-- ===== src/Evaluator/Segment/Membership.antt =====
-- `isTargetIncludedOrExcludedInSegment` of evaluation/evaluator.go: when a target belongs to one of
-- a list of segments.
use mathlib.Core.Logic.{◌↔◌}
use ff_golang_server_sdk.Common.{
  ℕ, suc, String, ◌≡◌, refl, ◌∙◌, if◌then◌else◌, Bool, true, false, Option, none, some, List, [],
  ◌∷◌, ◌⊎◌, inl, inr, eq_iff, arith, Bool-cases, Any,
}
use ff_golang_server_sdk.Common.Run.{Run, ret, ◌>>=◌, >>=-eq-ret, Result, ok, err}
use ff_golang_server_sdk.Go.{Runtime}
use ff_golang_server_sdk.Rest
use ff_golang_server_sdk.Rest.{Clause}
use ff_golang_server_sdk.Target.{Target}
use ff_golang_server_sdk.Errors.{Error}
use ff_golang_server_sdk.Evaluator.{Query}
use ff_golang_server_sdk.Evaluator.Clause.{Included}
use ff_golang_server_sdk.Evaluator.Segment.{
  identifier_in, is_target_in_list, segment_rules, visit_segment, visit_found, segments_loop,
  is_target_included_or_excluded_in_segment,
}

-- The identifier stands in the list.
abbrev pub Lists : String → Option (List Rest.Target) → Type 0
Lists identifier none = ⊥
Lists identifier (some targets) = Any (λ u. u.identifier ≡ identifier) targets

identifier_in_iff :
    (identifier : String) (targets : List Rest.Target)
    → (identifier_in identifier targets ≡ true) ↔ Any (λ u. u.identifier ≡ identifier) targets
unfolding identifier_in
identifier_in_iff identifier [] = (λ h. cc, λ h. absurd h)
identifier_in_iff identifier (u ∷ targets) = (
  λ h. ground (arith, eq_iff u.identifier identifier, (identifier_in_iff identifier targets).0),
  λ h. ground (arith, eq_iff u.identifier identifier, (identifier_in_iff identifier targets).1),
)

-- A target is in a list exactly when the list has an entry with its identifier.
pub is_target_in_list_iff :
    {F : Type 0} (t : Target F) (targets : Option (List Rest.Target))
    → (is_target_in_list (some t) targets ≡ true) ↔ Lists t.identifier targets
unfolding is_target_in_list
is_target_in_list_iff t none = (λ h. cc, λ h. absurd h)
is_target_in_list_iff t (some targets) = identifier_in_iff t.identifier targets

module _ (rt : Runtime) (q : Query) (inner : Included rt) (t : Target rt.Float) where
  -- What one segment says of the target, before the segments behind it are asked.
  pub data Admits (s : Rest.Segment) : Type 0 where
    by_list : ¬ Lists t.identifier s.excluded → Lists t.identifier s.included → Admits s
    by_rules :
        ¬ Lists t.identifier s.excluded
        → segment_rules rt inner s.rules (some t) ≡ ret true
        → Admits s

  -- Neither excluded nor included.
  pub record IsSilent (s : Rest.Segment) : Type 0 where
    pub not_excluded : ¬ Lists t.identifier s.excluded
    pub not_included : ¬ Lists t.identifier s.included
    pub no_rules : segment_rules rt inner s.rules (some t) ≡ ret false

  -- A segment admits the target, and the segments before it are found and silent.
  pub data Belongs : List String → Type 0 where
    here :
        {identifier : String} {identifiers : List String} (s : Rest.Segment)
        → q.get_segment identifier ≡ ok s
        → Admits s
        → Belongs (identifier ∷ identifiers)
    later :
        {identifier : String} {identifiers : List String} (s : Rest.Segment)
        → q.get_segment identifier ≡ ok s
        → IsSilent s
        → Belongs identifiers
        → Belongs (identifier ∷ identifiers)

  not_listed :
      (targets : Option (List Rest.Target))
      → is_target_in_list (some t) targets ≡ false
      → ¬ Lists t.identifier targets
  not_listed targets h l =
      let e : is_target_in_list (some t) targets ≡ true = (is_target_in_list_iff t targets).1 l in
      cc

  pub listed-false :
      (targets : Option (List Rest.Target))
      → ¬ Lists t.identifier targets
      → is_target_in_list (some t) targets ≡ false
  listed-false targets h = elim (Bool-cases (is_target_in_list (some t) targets)) [
    | inl e ↦ absurd (h ((is_target_in_list_iff t targets).0 e))
    | inr e ↦ e
  ]

  -- The three ways through one segment.
  visit_cases :
      (s : Rest.Segment) (rest : Run Bool)
      → visit_segment rt inner s (some t) rest ≡ ret true
      → Admits s ⊎ IsSilent s × (rest ≡ ret true)
  unfolding visit_segment
  visit_cases s rest h = elim (Bool-cases (is_target_in_list (some t) s.excluded)) [
    | inl e ↦ ground (arith, e)
    | inr e ↦ elim (Bool-cases (is_target_in_list (some t) s.included)) [
      | inl i ↦ inl (by_list (not_listed s.excluded e) ((is_target_in_list_iff t s.included).0 i))
      | inr i ↦
          let inside : (segment_rules rt inner s.rules (some t) >>= λ matched.
          if matched then ret true else rest)
              ≡ ret true =
            ground (arith, e, i) in
          let (matched, ran, left) =
            >>=-eq-ret (segment_rules rt inner s.rules (some t)) _ inside in
          by_matched matched ran left e i
    ]
  ]
    where
      by_matched :
          (matched : Bool)
          → segment_rules rt inner s.rules (some t) ≡ ret matched
          → (if matched then ret true else rest) ≡ ret true
          → is_target_in_list (some t) s.excluded ≡ false
          → is_target_in_list (some t) s.included ≡ false
          → Admits s ⊎ IsSilent s × (rest ≡ ret true)
      by_matched true ran left e i = inl (by_rules (not_listed s.excluded e) ran)
      by_matched false ran left e i = inr (
        record {
          not_excluded = not_listed s.excluded e;
          not_included = not_listed s.included i;
          no_rules = ran;
        },
        left,
      )

  Admits-visit :
      (s : Rest.Segment) (rest : Run Bool)
      → Admits s
      → visit_segment rt inner s (some t) rest ≡ ret true
  unfolding visit_segment
  Admits-visit s rest (by_list out in_list) =
      ground (arith, listed-false s.excluded out, (is_target_in_list_iff t s.included).1 in_list)
  Admits-visit s rest (by_rules out ran) =
      rw (listed-false s.excluded out) (elim (Bool-cases (is_target_in_list (some t) s.included)) [
        | inl i ↦ rw i
        | inr i ↦ rw i (rw ran)
      ])

  IsSilent-visit :
      (s : Rest.Segment) (rest : Run Bool)
      → IsSilent s
      → visit_segment rt inner s (some t) rest ≡ rest
  unfolding visit_segment
  IsSilent-visit s rest silent =
      rw (listed-false s.excluded silent.not_excluded)
        (rw (listed-false s.included silent.not_included) (rw silent.no_rules))

  Belongs-loop :
      (ids : List String) → Belongs ids → segments_loop rt (some q) inner ids (some t) ≡ ret true
  unfolding segments_loop
  Belongs-loop [] b = elim b [ ]
  Belongs-loop (id ∷ ids) (here s found admits) =
      rw found (Admits-visit s (segments_loop rt (some q) inner ids (some t)) admits)
  Belongs-loop (id ∷ ids) (later s found silent more) = rw found (
      IsSilent-visit s (segments_loop rt (some q) inner ids (some t)) silent
      ∙ Belongs-loop ids more)

  loop-Belongs :
      (ids : List String) → segments_loop rt (some q) inner ids (some t) ≡ ret true → Belongs ids
  unfolding segments_loop
  loop-Belongs [] h = cc
  loop-Belongs (id ∷ ids) h = by_segment (q.get_segment id) refl h (loop-Belongs ids)
    where
      by_segment :
          (r : Result Error Rest.Segment)
          → q.get_segment id ≡ r
          → visit_found rt inner r (some t) (segments_loop rt (some q) inner ids (some t))
            ≡ ret true
          → (segments_loop rt (some q) inner ids (some t) ≡ ret true → Belongs ids)
          → Belongs (id ∷ ids)
      by_segment (err x) found h ih = cc
      by_segment (ok s) found h ih =
          elim (visit_cases s (segments_loop rt (some q) inner ids (some t)) h) [
            | inl admits ↦ here s found admits
            | inr (silent, more) ↦ later s found silent (ih more)
          ]

-- With enough fuel for its own call, the test for segments answers true exactly when some segment of the
-- list admits the target by its include list or its rules, does not exclude it, and every segment before
-- it is found and silent on the target.
pub is_target_included_or_excluded_in_segment_iff :
    (rt : Runtime) (fuel : ℕ) (q : Query) (ids : List String) (t : Target rt.Float)
    → (is_target_included_or_excluded_in_segment rt (suc fuel) (some q) ids (some t) ≡ ret true)
      ↔ Belongs rt q (is_target_included_or_excluded_in_segment rt fuel (some q)) t ids
unfolding is_target_included_or_excluded_in_segment
is_target_included_or_excluded_in_segment_iff rt fuel q ids t = (
  loop-Belongs rt q (is_target_included_or_excluded_in_segment rt fuel (some q)) t ids,
  Belongs-loop rt q (is_target_included_or_excluded_in_segment rt fuel (some q)) t ids,
)
