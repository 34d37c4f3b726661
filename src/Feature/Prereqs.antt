-- ===== src/Feature/Prereqs.antt =====
-- `prereqsSatisfied` and `checkPreReqsForPreReqs` of evaluation/feature.go, with fuel for the nesting.
use ff_golang_server_sdk.Common.{
  ℕ, zero, suc, String, Bool, true, false, Option, none, some, List, [], ◌∷◌, ◌==◌, if◌then◌else◌,
}
use ff_golang_server_sdk.Common.Dict.{lookup}
use ff_golang_server_sdk.Common.Run.{Run, ret, panic, no_fuel, ◌>>=◌}
use ff_golang_server_sdk.Go.{Runtime}
use ff_golang_server_sdk.Target.{Target}
use ff_golang_server_sdk.Feature.{Prerequisite, Variation, FeatureConfig}
use ff_golang_server_sdk.Feature.Flag.{get_variation_name, find_by_identifier}

-- The loop over the wanted variations: all are the value that was found. A nil variation panics.
unfoldable pub all_match : List String → Option Variation → Run Bool
all_match [] found = ret true
all_match (variation ∷ variations) found =
    let rest = all_match variations found in
    elim found [ none ↦ panic | some v ↦ if variation == v.value then rest else ret false ]

module _ (rt : Runtime) (flags : List (String × FeatureConfig))
    (target : Option (Target rt.Float)) where
  -- One prerequisite whose flag is in the map, behind the check of the flag's own.
  unfoldable pub match_prerequisite : Prerequisite → FeatureConfig → Run Bool
  unfolding all_match get_variation_name
  match_prerequisite pre flag = get_variation_name rt flag target >>= λ name.
      if pre.feature == flag.feature
      then all_match pre.variations (find_by_identifier flag.variations name)
      else ret true

  -- The body of both loops: `check` is for the prerequisites of the flag, `rest` is the loop behind it.
  abbrev pub visit :
      (List Prerequisite → Run Bool) → Prerequisite → Option FeatureConfig → Run Bool → Run Bool
  visit check pre none rest = rest
  visit check pre (some flag) rest = check flag.prerequisites >>= λ nested.
      if nested
      then (match_prerequisite pre flag >>= λ matched. if matched then rest else ret false)
      else ret false

  unfoldable pub prerequisites_loop : (List Prerequisite → Run Bool) → List Prerequisite → Run Bool
  unfolding match_prerequisite
  prerequisites_loop check [] = ret true
  prerequisites_loop check (pre ∷ prerequisites) =
      let rest = prerequisites_loop check prerequisites in
      visit check pre (lookup pre.feature flags) rest

  -- `checkPreReqsForPreReqs`; a call for no prerequisites, which the code leaves out, gives true.
  unfoldable pub check_pre_reqs : ℕ → List Prerequisite → Run Bool
  unfolding prerequisites_loop
  check_pre_reqs fuel [] = ret true
  check_pre_reqs zero (pre ∷ prerequisites) = no_fuel
  check_pre_reqs (suc fuel) (pre ∷ prerequisites) =
      prerequisites_loop (λ nested. check_pre_reqs fuel nested) (pre ∷ prerequisites)

module _ (rt : Runtime) where
  -- `prereqsSatisfied`; `none` is a nil map of flags
  unfoldable pub prereqs_satisfied :
      ℕ
      → FeatureConfig
      → Option (Target rt.Float)
      → Option (List (String × FeatureConfig))
      → Run Bool
  unfolding check_pre_reqs
  prereqs_satisfied fuel fc target none = ret true
  prereqs_satisfied fuel fc target (some flags) =
      prerequisites_loop rt flags target (λ nested. check_pre_reqs rt flags target fuel nested)
        fc.prerequisites
