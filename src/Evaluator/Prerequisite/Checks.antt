-- ===== src/Evaluator/Prerequisite/Checks.antt =====
-- `checkPreRequisite` of evaluation/evaluator.go: when the prerequisites of a flag are satisfied.
use mathlib.Core.Logic.{◌↔◌}
use ff_golang_server_sdk.Common.{
  ℕ, suc, String, ◌≡◌, refl, ◌∙◌, ap, Bool, true, false, Option, none, some, List, [], ◌∷◌, arith,
  eq_iff, if◌then◌else◌, Any,
}
use ff_golang_server_sdk.Common.Run.{Run, ret, ◌>>=◌, >>=-eq-ret, Result, ok, err}
use ff_golang_server_sdk.Go.{Runtime}
use ff_golang_server_sdk.Errors.{Error}
use ff_golang_server_sdk.Rest.{FeatureConfig, Prerequisite, Variation}
use ff_golang_server_sdk.Target.{Target}
use ff_golang_server_sdk.Evaluator.{Query}
use ff_golang_server_sdk.Evaluator.Clause.{contains}
use ff_golang_server_sdk.Evaluator.Flag.{evaluate_flag}
use ff_golang_server_sdk.Evaluator.Prerequisite.{
  check_variation, visit_prerequisite, prerequisites_loop, check_pre_requisite,
}

pub contains_iff : (xs : List String) (x : String) → (contains xs x ≡ true) ↔ Any (λ y. y ≡ x) xs
unfolding contains
contains_iff [] x = (λ h. cc, λ h. absurd h)
contains_iff (y ∷ xs) x = (
  λ h. ground (arith, eq_iff y x, (contains_iff xs x).0),
  λ h. ground (arith, eq_iff y x, (contains_iff xs x).1),
)

module _ (rt : Runtime) (depth : ℕ) (q : Query) (check : FeatureConfig → Run (Bool × Option Error))
    (target : Option (Target rt.Float)) where
  -- The list passes: each prerequisite is met, up to one whose flag is unknown or has no variation, which
  -- ends the check.
  pub data Passes : List Prerequisite → Type 0 where
    done : Passes []
    unknown :
        {pre : Prerequisite} {ps : List Prerequisite} (e : Error)
        → q.get_flag pre.feature ≡ err e
        → Passes (pre ∷ ps)
    broken :
        {pre : Prerequisite} {ps : List Prerequisite} (fc : FeatureConfig) (e : Error)
        → q.get_flag pre.feature ≡ ok fc
        → evaluate_flag rt depth (some q) fc target ≡ ret (err e)
        → Passes (pre ∷ ps)
    met :
        {pre : Prerequisite} {ps : List Prerequisite} (fc : FeatureConfig) (v : Variation)
        (e : Option Error)
        → q.get_flag pre.feature ≡ ok fc
        → evaluate_flag rt depth (some q) fc target ≡ ret (ok v)
        → Any (λ x. x ≡ v.identifier) pre.variations
        → check fc ≡ ret (true, e)
        → Passes ps
        → Passes (pre ∷ ps)

  Passes-loop :
      (ps : List Prerequisite)
      → Passes ps
      → prerequisites_loop rt depth q check target ps ≡ ret true
  unfolding prerequisites_loop
  Passes-loop [] p = refl
  Passes-loop (pre ∷ ps) (unknown e found) = rw found
  Passes-loop (pre ∷ ps) (broken fc e found gives) = rw found (rw gives)
  Passes-loop (pre ∷ ps) (met fc v e found gives listed passed more) = rw found (
      rw gives (
        rw ((contains_iff pre.variations v.identifier).1 listed) (rw passed (Passes-loop ps more))))

  nested_passed :
      (fc : FeatureConfig) (rest : Run Bool)
      → (check fc >>= λ r. if r.0 then rest else ret false) ≡ ret true
      → (e : Option Error) × (check fc ≡ ret (true, e)) × (rest ≡ ret true)
  nested_passed fc rest h =
      let (r, ran, left) = >>=-eq-ret (check fc) (λ r. if r.0 then rest else ret false) h in
      by_answer r.0 r.1 ran left
    where
      by_answer :
          (b : Bool) (e : Option Error)
          → check fc ≡ ret (b, e)
          → (if b then rest else ret false) ≡ ret true
          → (e' : Option Error) × (check fc ≡ ret (true, e')) × (rest ≡ ret true)
      by_answer true e ran left = (e, ran, left)
      by_answer false e ran left = cc

  check-Passes :
      (pre : Prerequisite) (ps : List Prerequisite) (fc : FeatureConfig)
      (r : Result Error Variation)
      → q.get_flag pre.feature ≡ ok fc
      → evaluate_flag rt depth (some q) fc target ≡ ret r
      → check_variation rt depth pre r (check fc) (prerequisites_loop rt depth q check target ps)
        ≡ ret true
      → (prerequisites_loop rt depth q check target ps ≡ ret true → Passes ps)
      → Passes (pre ∷ ps)
  check-Passes pre ps fc (err e) found gives h ih = broken fc e found gives
  check-Passes pre ps fc (ok v) found gives h ih =
      by_test (contains pre.variations v.identifier) refl h
    where
      by_test :
          (b : Bool)
          → contains pre.variations v.identifier ≡ b
          → (if b
              then (check fc >>= λ r.
                  if r.0 then prerequisites_loop rt depth q check target ps else ret false)
              else ret false)
            ≡ ret true
          → Passes (pre ∷ ps)
      by_test false e k = cc
      by_test true e k =
          let (e', passed, left) =
            nested_passed fc (prerequisites_loop rt depth q check target ps) k in
          met fc v e' found gives ((contains_iff pre.variations v.identifier).0 e) passed (ih left)

  loop-Passes :
      (ps : List Prerequisite)
      → prerequisites_loop rt depth q check target ps ≡ ret true
      → Passes ps
  unfolding prerequisites_loop
  loop-Passes [] h = done
  loop-Passes (pre ∷ ps) h = by_flag (q.get_flag pre.feature) refl h (loop-Passes ps)
    where
      by_flag :
          (r : Result Error FeatureConfig)
          → q.get_flag pre.feature ≡ r
          → visit_prerequisite rt depth q check target pre r
              (prerequisites_loop rt depth q check target ps)
            ≡ ret true
          → (prerequisites_loop rt depth q check target ps ≡ ret true → Passes ps)
          → Passes (pre ∷ ps)
      by_flag (err e) found k ih = unknown e found
      by_flag (ok fc) found k ih =
          let (r, gives, left) =
            >>=-eq-ret (evaluate_flag rt depth (some q) fc target)
              (λ r.
                check_variation rt depth pre r (check fc)
                  (prerequisites_loop rt depth q check target ps))
              k in
          check-Passes pre ps fc r found gives left ih

-- `checkPreRequisite` answers true exactly when the prerequisites pass in order: each flag is known and
-- evaluated to one of the wanted variations and passes the check of its own prerequisites, up to the end
-- of the list or to the first flag that is unknown or without a variation.
pub check_pre_requisite_iff :
    (rt : Runtime) (depth fuel : ℕ) (q : Query) (fc : FeatureConfig)
    (target : Option (Target rt.Float)) (ps : List Prerequisite)
    → fc.prerequisites ≡ some ps
    → (check_pre_requisite rt depth (suc fuel) (some q) fc target ≡ ret (true, none))
      ↔ Passes rt depth q
          (λ nested. check_pre_requisite rt depth fuel (some q) nested target)
          target
          ps
unfolding check_pre_requisite
check_pre_requisite_iff rt depth fuel q fc target ps e = (forwards, backwards)
  where
    check : FeatureConfig → Run (Bool × Option Error)
    check nested = check_pre_requisite rt depth fuel (some q) nested target

    answer : Bool → Run (Bool × Option Error)
    answer satisfied = ret (satisfied, none)

    true_only : (b : Bool) → answer b ≡ ret (true, none) → b ≡ true
    true_only b h = cc

    forwards :
        check_pre_requisite rt depth (suc fuel) (some q) fc target ≡ ret (true, none)
        → Passes rt depth q check target ps
    forwards h =
        let (b, ran, left) =
          >>=-eq-ret (prerequisites_loop rt depth q check target ps) answer (rw e at h) in
        loop-Passes rt depth q check target ps (ran ∙ ap ret (true_only b left))

    backwards :
        Passes rt depth q check target ps
        → check_pre_requisite rt depth (suc fuel) (some q) fc target ≡ ret (true, none)
    backwards p = rw e (rw (Passes-loop rt depth q check target ps p))
