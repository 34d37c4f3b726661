-- ===== src/Feature/Satisfied.antt =====
-- `prereqsSatisfied` of evaluation/feature.go: when the prerequisites of a flag are satisfied.
use mathlib.Core.Path.{subst}
use ff_golang_server_sdk.Common.{
  ℕ, String, ◌≡◌, ◌≢◌, refl, sym, ◌∙◌, Bool, true, false, Bool-cases, ◌↔◌, inl, inr, Option, none,
  some, List, [], ◌∷◌, ◌==◌, if◌then◌else◌, eq_iff, All,
}
use ff_golang_server_sdk.Common.Dict.{lookup}
use ff_golang_server_sdk.Common.Run.{Run, ret, panic, no_fuel, ◌>>=◌, >>=-eq-ret}
use ff_golang_server_sdk.Go.{Runtime}
use ff_golang_server_sdk.Target.{Target}
use ff_golang_server_sdk.Feature.{Prerequisite, Variation, FeatureConfig}
use ff_golang_server_sdk.Feature.Flag.{get_variation_name, find_by_identifier}
use ff_golang_server_sdk.Feature.Prereqs.{
  all_match, match_prerequisite, visit, prerequisites_loop, check_pre_reqs, prereqs_satisfied,
}

all_match-some_iff :
    (ws : List String) (v : Variation)
    → (all_match ws (some v) ≡ ret true) ↔ All (λ w. w ≡ v.value) ws
unfolding all_match
all_match-some_iff [] v = (λ h. tt, λ h. refl)
all_match-some_iff (w ∷ ws) v = elim (Bool-cases (w == v.value)) [
  | inl e ↦ (
    λ h. ((eq_iff w v.value).0 e, (all_match-some_iff ws v).0 (rw e at h)),
    λ h. rw e ((all_match-some_iff ws v).1 (h.1)),
  )
  | inr e ↦ (λ h. cc (rw e at h), λ h. cc (e, (eq_iff w v.value).1 (h.0)))
]

-- A test that goes on, and answers true in the end.
tested :
    (m rest : Run Bool)
    → (m >>= λ b. if b then rest else ret false) ≡ ret true
    → (m ≡ ret true) × (rest ≡ ret true)
tested (ret true) rest h = (refl, h)
tested (ret false) rest h = cc
tested panic rest h = cc
tested no_fuel rest h = cc

-- What the prerequisite asks of the variation of its flag.
pub data IsWanted (pre : Prerequisite) (flag : FeatureConfig) (name : String) : Type 0 where
  other_name : pre.feature ≢ flag.feature → IsWanted pre flag name
  nothing_wanted : pre.variations ≡ [] → IsWanted pre flag name
  one_value :
      (v : Variation)
      → find_by_identifier flag.variations name ≡ some v
      → All (λ w. w ≡ v.value) pre.variations
      → IsWanted pre flag name

all_match-Wanted :
    (pre : Prerequisite) (flag : FeatureConfig) (name : String) (ws : List String)
    (found : Option Variation)
    → pre.variations ≡ ws
    → find_by_identifier flag.variations name ≡ found
    → all_match ws found ≡ ret true
    → IsWanted pre flag name
unfolding all_match
all_match-Wanted pre flag name [] found e f h = nothing_wanted e
all_match-Wanted pre flag name (w ∷ ws) none e f h = cc
all_match-Wanted pre flag name (w ∷ ws) (some v) e f h =
    one_value v f (subst (All (λ w. w ≡ v.value)) (sym e) ((all_match-some_iff (w ∷ ws) v).0 h))

module _ (rt : Runtime) (flags : List (String × FeatureConfig))
    (target : Option (Target rt.Float)) where
  -- The rest of `match_prerequisite` behind the variation's name
  abbrev by_name : Prerequisite → FeatureConfig → String → Run Bool
  by_name pre flag name =
      if pre.feature == flag.feature
      then all_match pre.variations (find_by_identifier flag.variations name)
      else ret true

  by_name-IsWanted :
      (pre : Prerequisite) (flag : FeatureConfig) (name : String)
      → by_name pre flag name ≡ ret true
      → IsWanted pre flag name
  by_name-IsWanted pre flag name h = elim (Bool-cases (pre.feature == flag.feature)) [
    | inl e ↦
        all_match-Wanted pre flag name pre.variations (find_by_identifier flag.variations name) refl
          refl (rw e at h)
    | inr e ↦ other_name (λ p. cc (e, (eq_iff pre.feature flag.feature).1 p))
  ]

  IsWanted-by_name :
      (pre : Prerequisite) (flag : FeatureConfig) (name : String)
      → IsWanted pre flag name
      → by_name pre flag name ≡ ret true
  unfolding all_match
  IsWanted-by_name pre flag name w = elim (Bool-cases (pre.feature == flag.feature)) [
    | inl e ↦ rw e (elim w [
      | other_name differs ↦ absurd (differs ((eq_iff pre.feature flag.feature).0 e))
      | nothing_wanted p ↦ rw p refl
      | one_value v f ws ↦ rw f ((all_match-some_iff pre.variations v).1 ws)
    ])
    | inr e ↦ rw e refl
  ]

  module _ (check : List Prerequisite → Run Bool) where
    -- One prerequisite is met: its flag is not in the map, or its flag's own prerequisites are met and its
    -- variation is the wanted one.
    pub data IsMet (pre : Prerequisite) : Type 0 where
      unknown : lookup pre.feature flags ≡ none → IsMet pre
      known :
          (flag : FeatureConfig) (name : String)
          → lookup pre.feature flags ≡ some flag
          → check flag.prerequisites ≡ ret true
          → get_variation_name rt flag target ≡ ret name
          → IsWanted pre flag name
          → IsMet pre

    visit-IsMet :
        (pre : Prerequisite) (found : Option FeatureConfig) (rest : Run Bool)
        → lookup pre.feature flags ≡ found
        → visit rt flags target check pre found rest ≡ ret true
        → IsMet pre × (rest ≡ ret true)
    unfolding match_prerequisite
    visit-IsMet pre none rest e h = (unknown e, h)
    visit-IsMet pre (some flag) rest e h =
        let (nested, left) =
          tested (check flag.prerequisites)
            (match_prerequisite rt flags target pre flag >>= λ b. if b then rest else ret false)
            h in
        let (matched, more) = tested (match_prerequisite rt flags target pre flag) rest left in
        let (name, named, wanted) =
          >>=-eq-ret (get_variation_name rt flag target) (by_name pre flag) matched in
        (known flag name e nested named (by_name-IsWanted pre flag name wanted), more)

    IsMet-visit :
        (pre : Prerequisite) (rest : Run Bool)
        → IsMet pre
        → visit rt flags target check pre (lookup pre.feature flags) rest ≡ rest
    unfolding match_prerequisite
    IsMet-visit pre rest (unknown e) = rw e refl
    IsMet-visit pre rest (known flag name e nested named wanted) =
        rw e (rw nested (rw named (rw (IsWanted-by_name pre flag name wanted) refl)))

    loop_iff :
        (ps : List Prerequisite)
        → (prerequisites_loop rt flags target check ps ≡ ret true) ↔ All IsMet ps
    unfolding prerequisites_loop
    loop_iff [] = (λ h. tt, λ h. refl)
    loop_iff (pre ∷ ps) = (
      λ h.
          let (met, left) =
            visit-IsMet pre (lookup pre.feature flags) (prerequisites_loop rt flags target check ps)
              refl h in
          (met, (loop_iff ps).0 left),
      λ h.
          IsMet-visit pre (prerequisites_loop rt flags target check ps) (h.0)
          ∙ (loop_iff ps).1 (h.1),
    )

module _ (rt : Runtime) (flags : List (String × FeatureConfig)) (target : Option (Target rt.Float))
    (fuel : ℕ) (fc : FeatureConfig) where
  -- `prereqsSatisfied` answers true exactly when every prerequisite of the flag is met: its flag is not in
  -- the map, or the flag's own prerequisites pass their check and, where the flag goes by the
  -- prerequisite's name, no variation is wanted, or the flag has the variation that it evaluates to and
  -- every wanted one is the value of that variation.
  pub prereqs_satisfied_iff :
      (prereqs_satisfied rt fuel fc target (some flags) ≡ ret true)
      ↔ All (IsMet rt flags target (check_pre_reqs rt flags target fuel)) fc.prerequisites
  unfolding prereqs_satisfied
  prereqs_satisfied_iff =
      loop_iff rt flags target (check_pre_reqs rt flags target fuel) fc.prerequisites
