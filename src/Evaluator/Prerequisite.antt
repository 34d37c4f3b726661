-- ===== src/Evaluator/Prerequisite.antt =====
-- `checkPreRequisite` of evaluation/evaluator.go. The fuel bounds how deep prerequisites nest;
-- `depth` is the fuel for segments.
pub mod Total
pub mod Checks
use ff_golang_server_sdk.Common.{
  ℕ, zero, suc, Bool, true, false, Option, none, some, List, [], ◌∷◌, if◌then◌else◌,
}
use ff_golang_server_sdk.Common.Run.{Run, ret, no_fuel, ◌>>=◌, Result, ok, err}
use ff_golang_server_sdk.Go.{Runtime}
use ff_golang_server_sdk.Errors.{Error, query_provider_missing}
use ff_golang_server_sdk.Rest.{FeatureConfig, Prerequisite, Variation}
use ff_golang_server_sdk.Target.{Target}
use ff_golang_server_sdk.Evaluator.{Query}
use ff_golang_server_sdk.Evaluator.Clause.{contains}
use ff_golang_server_sdk.Evaluator.Flag.{evaluate_flag}

module _ (rt : Runtime) (depth : ℕ) where
  -- The checks on one prerequisite that was evaluated; `rest` is the loop over those behind it.
  abbrev pub check_variation :
      Prerequisite → Result Error Variation → Run (Bool × Option Error) → Run Bool → Run Bool
  check_variation pre (err e) nested rest = ret true
  check_variation pre (ok v) nested rest =
      if contains pre.variations v.identifier
      then (nested >>= λ r. if r.0 then rest else ret false)
      else ret false

  module _ (query : Query) (check : FeatureConfig → Run (Bool × Option Error))
      (target : Option (Target rt.Float)) where
    abbrev pub visit_prerequisite : Prerequisite → Result Error FeatureConfig → Run Bool → Run Bool
    visit_prerequisite pre (err e) rest = ret true
    visit_prerequisite pre (ok fc) rest = do
      variation ← evaluate_flag rt depth (some query) fc target
      check_variation pre variation (check fc) rest

    unfoldable pub prerequisites_loop : List Prerequisite → Run Bool
    prerequisites_loop [] = ret true
    prerequisites_loop (pre ∷ prerequisites) =
        let rest = prerequisites_loop prerequisites in
        visit_prerequisite pre (query.get_flag pre.feature) rest

  -- `checkPreRequisite`
  unfoldable pub check_pre_requisite :
      ℕ → Option Query → FeatureConfig → Option (Target rt.Float) → Run (Bool × Option Error)
  unfolding prerequisites_loop
  check_pre_requisite zero query fc target = no_fuel
  check_pre_requisite (suc fuel) none fc target = ret (true, some query_provider_missing)
  check_pre_requisite (suc fuel) (some q) fc target = elim fc.prerequisites [
    | none ↦ ret (true, none)
    | some prerequisites ↦
        prerequisites_loop q (λ nested. check_pre_requisite fuel (some q) nested target) target
          prerequisites
        >>= λ satisfied. ret (satisfied, none)
  ]
