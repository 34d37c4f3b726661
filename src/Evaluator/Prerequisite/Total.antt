-- ===== src/Evaluator/Prerequisite/Total.antt =====
-- `checkPreRequisite` of evaluation/evaluator.go: whether it returns, by a rank of the flags.
use ff_golang_server_sdk.Common.{
  ℕ, zero, suc, ◌≤◌, ◌<◌, String, ◌≡◌, refl, Bool, true, false, Option, none, some, List, [], ◌∷◌,
  arith, if◌then◌else◌, All,
}
use ff_golang_server_sdk.Common.Run.{Run, ret, no_fuel, Returns, Returns-bind, Result, ok, err}
use ff_golang_server_sdk.Go.{Runtime}
use ff_golang_server_sdk.Errors.{Error}
use ff_golang_server_sdk.Rest.{FeatureConfig, Prerequisite, Variation}
use ff_golang_server_sdk.Target.{Target}
use ff_golang_server_sdk.Evaluator.{Query}
use ff_golang_server_sdk.Evaluator.Clause.{contains}
use ff_golang_server_sdk.Evaluator.Segment.Nesting.{IsRanked}
use ff_golang_server_sdk.Evaluator.Flag.{evaluate_flag}
use ff_golang_server_sdk.Evaluator.Flag.Total.{IsWellFormed, evaluate_flag-Returns, if-Returns}
use ff_golang_server_sdk.Evaluator.Prerequisite.{
  check_variation, visit_prerequisite, prerequisites_loop, check_pre_requisite,
}

abbrev pub NeedsBelow : (String → ℕ) → ℕ → Option (List Prerequisite) → Type 0
NeedsBelow need n none = Unit
NeedsBelow need n (some prerequisites) = All (λ p. need p.feature < n) prerequisites

-- The data of a query that cannot send an evaluation in circles: segments name segments of a lower rank,
-- flags need flags of a lower rank, and each flag is well formed for the given depth.
pub record IsSound (q : Query) (rank need : String → ℕ) (depth : ℕ) : Type 0 where
  pub segments : IsRanked q rank
  pub flags :
      (id : String) (fc : FeatureConfig) → q.get_flag id ≡ ok fc → IsWellFormed rank (suc depth) fc
  pub needs :
      (id : String) (fc : FeatureConfig)
      → q.get_flag id ≡ ok fc
      → NeedsBelow need (need id) fc.prerequisites

module _ (rt : Runtime) (q : Query) (rank need : String → ℕ) (depth : ℕ)
    (sound : IsSound q rank need depth) (target : Option (Target rt.Float)) where
  abbrev pub check : ℕ → FeatureConfig → Run (Bool × Option Error)
  check fuel fc = check_pre_requisite rt (suc depth) fuel (some q) fc target

  abbrev pub Checks : ℕ → Type 0
  Checks fuel =
      (id : String) (fc : FeatureConfig)
      → q.get_flag id ≡ ok fc
      → need id < fuel
      → Returns (check fuel fc)

  visit-Returns :
      (fuel : ℕ) (pre : Prerequisite) (rest : Run Bool)
      → Checks fuel
      → need pre.feature < fuel
      → Returns rest
      → Returns (
          visit_prerequisite rt (suc depth) q (check fuel) target pre (q.get_flag pre.feature) rest)
  visit-Returns fuel pre rest checks low more = by_flag (q.get_flag pre.feature) refl
    where
      nested :
          (fc : FeatureConfig)
          → q.get_flag pre.feature ≡ ok fc
          → (v : Result Error Variation)
          → Returns (check_variation rt (suc depth) pre v (check fuel fc) rest)
      nested fc found (err e) = tt
      nested fc found (ok v) =
          if-Returns (contains pre.variations v.identifier) _ (ret false)
            (Returns-bind (check fuel fc) (λ r. if r.0 then rest else ret false)
              (checks pre.feature fc found low) (λ r _. if-Returns r.0 rest (ret false) more tt))
            tt

      by_flag :
          (r : Result Error FeatureConfig)
          → q.get_flag pre.feature ≡ r
          → Returns (visit_prerequisite rt (suc depth) q (check fuel) target pre r rest)
      by_flag (err e) found = tt
      by_flag (ok fc) found =
          Returns-bind (evaluate_flag rt (suc depth) (some q) fc target) _
            (evaluate_flag-Returns rt q rank sound.segments depth fc target
              (sound.flags pre.feature fc found))
            (λ v _. nested fc found v)

  loop-Returns :
      (fuel : ℕ) (prerequisites : List Prerequisite)
      → Checks fuel
      → All (λ p. need p.feature < fuel) prerequisites
      → Returns (prerequisites_loop rt (suc depth) q (check fuel) target prerequisites)
  unfolding prerequisites_loop
  loop-Returns fuel [] checks low = tt
  loop-Returns fuel (pre ∷ prerequisites) checks low =
      visit-Returns fuel pre (prerequisites_loop rt (suc depth) q (check fuel) target prerequisites)
        checks low.0 (loop-Returns fuel prerequisites checks low.1)

  needs-Returns :
      (fuel : ℕ) (fc : FeatureConfig)
      → Checks fuel
      → NeedsBelow need fuel fc.prerequisites
      → Returns (check (suc fuel) fc)
  unfolding check_pre_requisite
  needs-Returns fuel fc checks low = by_list fc.prerequisites refl low
    where
      by_list :
          (ps : Option (List Prerequisite))
          → fc.prerequisites ≡ ps
          → NeedsBelow need fuel ps
          → Returns (check (suc fuel) fc)
      by_list none e k = rw e tt
      by_list (some ps) e k = rw e (
          Returns-bind (prerequisites_loop rt (suc depth) q (check fuel) target ps) _
            (loop-Returns fuel ps checks k) (λ satisfied _. tt))

  needs_weaken :
      (m n : ℕ) (ps : Option (List Prerequisite))
      → m ≤ n
      → NeedsBelow need m ps
      → NeedsBelow need n ps
  needs_weaken m n none le h = tt
  needs_weaken m n (some ps) le h = weaken ps h
    where
      weaken :
          (l : List Prerequisite)
          → All (λ p. need p.feature < m) l
          → All (λ p. need p.feature < n) l
      weaken [] k = tt
      weaken (p ∷ l) k = (omega (arith, k.0), weaken l k.1)

  -- Where segments and prerequisites do not run in circles and each flag is well formed,
  -- `checkPreRequisite` returns on every flag of the query, with fuel above the flag's rank.
  pub check_pre_requisite-Returns :
      (fuel : ℕ) (id : String) (fc : FeatureConfig)
      → q.get_flag id ≡ ok fc
      → need id < fuel
      → Returns (check_pre_requisite rt (suc depth) fuel (some q) fc target)
  check_pre_requisite-Returns zero id fc found low = absurd (omega arith)
  check_pre_requisite-Returns (suc fuel) id fc found low =
      needs-Returns fuel fc (check_pre_requisite-Returns fuel)
        (needs_weaken (need id) fuel fc.prerequisites (omega arith) (sound.needs id fc found))

-- A flag that is its own first prerequisite, and meets it, sends `checkPreRequisite` into a recursion
-- without end: no fuel is enough.
pub self_prerequisite_diverges :
    (rt : Runtime) (q : Query) (target : Option (Target rt.Float)) (depth : ℕ) (fc : FeatureConfig)
    (pre : Prerequisite) (ps : List Prerequisite) (v : Variation)
    → q.get_flag pre.feature ≡ ok fc
    → fc.prerequisites ≡ some (pre ∷ ps)
    → evaluate_flag rt depth (some q) fc target ≡ ret (ok v)
    → contains pre.variations v.identifier ≡ true
    → (fuel : ℕ) → check_pre_requisite rt depth fuel (some q) fc target ≡ no_fuel
unfolding check_pre_requisite prerequisites_loop
self_prerequisite_diverges rt q target depth fc pre ps v found needs gives meets zero = refl
self_prerequisite_diverges rt q target depth fc pre ps v found needs gives meets (suc fuel) =
    rw needs (
      rw found (
        rw gives (
          rw meets (
            rw (
              self_prerequisite_diverges rt q target depth fc pre ps v found needs gives meets
                fuel)))))
