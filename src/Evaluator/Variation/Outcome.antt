-- ===== src/Evaluator/Variation/Outcome.antt =====
-- `evaluate` of evaluation/evaluator.go: what it returns, and what it leaves of the callback's
-- state.
use mathlib.Core.Path.{subst}
use ff_golang_server_sdk.Common.{
  ℕ, String, ◌≡◌, ◌≢◌, refl, sym, ap, ◌∙◌, Bool, true, false, Option, none, some, List, [], ◌∷◌,
  ◌==◌, eq_iff, if◌then◌else◌, ◌⊎◌, inl, inr, Any,
}
use ff_golang_server_sdk.Common.Run.{ret, ◌>>=◌, >>=-eq-ret, Result, ok, err}
use ff_golang_server_sdk.Go.{Runtime}
use ff_golang_server_sdk.Errors.{Error, flag_kind_mismatch, evaluation_flag}
use ff_golang_server_sdk.Rest.{FeatureConfig, Prerequisite, feature_state_on}
use ff_golang_server_sdk.Rest
use ff_golang_server_sdk.Target.{Target}
use ff_golang_server_sdk.Evaluator.{Query, Evaluator, PostEvalData}
use ff_golang_server_sdk.Evaluator.Flag.{
  evaluate_flag, find_variation, found_variation, on_variation,
}
use ff_golang_server_sdk.Evaluator.Segment.{is_target_included_or_excluded_in_segment}
use ff_golang_server_sdk.Evaluator.Prerequisite.{check_pre_requisite}
use ff_golang_server_sdk.Evaluator.Variation.{
  prerequisites_block, finish, call_back, evaluate_found, with_flag, evaluate,
}

-- What is found stands in the list, under the identifier that was looked for.
pub find_variation-ok :
    (vs : List Rest.Variation) (id : String) (v : Rest.Variation)
    → find_variation vs id ≡ ok v
    → (v.identifier ≡ id) × Any (λ u. u ≡ v) vs
unfolding find_variation
find_variation-ok [] id v h = cc
find_variation-ok (u ∷ vs) id v h = by_test (u.identifier == id) refl h (find_variation-ok vs id v)
  where
    by_test :
        (b : Bool)
        → (u.identifier == id) ≡ b
        → (if b then ok u else find_variation vs id) ≡ ok v
        → (find_variation vs id ≡ ok v → (v.identifier ≡ id) × Any (λ x. x ≡ v) vs)
        → (v.identifier ≡ id) × Any (λ x. x ≡ v) (u ∷ vs)
    by_test true e k ih =
        let p : u ≡ v = cc k in
        (ap (λ (x : Rest.Variation). x.identifier) (sym p) ∙ (eq_iff u.identifier id).0 e, inl p)
    by_test false e k ih = let (named, listed) = ih k in (named, inr listed)

found-listed :
    (fc : FeatureConfig) (id : String) (v : Rest.Variation)
    → found_variation fc id ≡ ok v
    → Any (λ u. u ≡ v) fc.variations
unfolding found_variation
found-listed fc id v h = by_test (id == "") h
  where
    by_test :
        (b : Bool)
        → (if b then err (evaluation_flag fc.feature) else find_variation fc.variations id) ≡ ok v
        → Any (λ u. u ≡ v) fc.variations
    by_test true k = cc
    by_test false k = (find_variation-ok fc.variations id v k).1

-- What `evaluateFlag` finds is a variation of the flag.
pub evaluate_flag-listed :
    (rt : Runtime) (depth : ℕ) (q : Option Query) (fc : FeatureConfig)
    (target : Option (Target rt.Float)) (v : Rest.Variation)
    → evaluate_flag rt depth q fc target ≡ ret (ok v)
    → Any (λ u. u ≡ v) fc.variations
unfolding evaluate_flag
evaluate_flag-listed rt depth q fc target v h =
    let (id, ran, left) =
      >>=-eq-ret
        (if fc.state == feature_state_on
          then on_variation rt (is_target_included_or_excluded_in_segment rt depth q) fc target
          else ret fc.off_variation)
        (λ id. ret (found_variation fc id)) h in
    found-listed fc id v (cc left)

module _ (rt : Runtime) {W : Type 0} (depth fuel : ℕ) (q : Query)
    (callback : Option (PostEvalData rt → W → W)) (id : String) (target : Option (Target rt.Float))
    (kind : String) (w : W) where
  abbrev e : Evaluator rt W
  e = record { query = some q; post_eval_callback = callback }

  -- The ways in which an evaluation of a known flag ends.
  pub data Ends (fc : FeatureConfig) : Result Error Rest.Variation × W → Type 0 where
    mismatch : fc.kind ≢ kind → Ends fc (err (flag_kind_mismatch kind fc.kind), w)
    blocks :
        fc.kind ≡ kind
        → prerequisites_block rt depth fuel e fc.prerequisites fc target ≡ ret true
        → Ends fc (find_variation fc.variations fc.off_variation, w)
    fails :
        (x : Error) → evaluate_flag rt depth (some q) fc target ≡ ret (err x) → Ends fc (err x, w)
    serves :
        (v : Rest.Variation)
        → fc.kind ≡ kind
        → prerequisites_block rt depth fuel e fc.prerequisites fc target ≡ ret false
        → evaluate_flag rt depth (some q) fc target ≡ ret (ok v)
        → Ends fc (
          ok v,
          call_back rt depth fuel e callback
              (record { feature_config = fc; target = target; variation = v })
              w,
        )

  flag-Ends :
      (fc : FeatureConfig) (r : Result Error Rest.Variation)
      → fc.kind ≡ kind
      → prerequisites_block rt depth fuel e fc.prerequisites fc target ≡ ret false
      → evaluate_flag rt depth (some q) fc target ≡ ret r
      → Ends fc (finish rt depth fuel e fc target w r)
  flag-Ends fc (err x) k free gives = fails x gives
  flag-Ends fc (ok v) k free gives = serves v k free gives

  blocks-Ends :
      (fc : FeatureConfig) (b : Bool) (r : Result Error Rest.Variation × W)
      → fc.kind ≡ kind
      → prerequisites_block rt depth fuel e fc.prerequisites fc target ≡ ret b
      → (if b
          then ret (find_variation fc.variations fc.off_variation, w)
          else (evaluate_flag rt depth (some q) fc target >>= λ v.
              ret (finish rt depth fuel e fc target w v)))
        ≡ ret r
      → Ends fc r
  blocks-Ends fc true r k ran h = subst (Ends fc) (cc h) (blocks k ran)
  blocks-Ends fc false r k ran h =
      let (v, gives, left) =
        >>=-eq-ret (evaluate_flag rt depth (some q) fc target)
          (λ v. ret (finish rt depth fuel e fc target w v)) h in
      subst (Ends fc) (cc left) (flag-Ends fc v k ran gives)

  evaluate_found-Ends :
      (fc : FeatureConfig) (r : Result Error Rest.Variation × W)
      → evaluate_found rt depth fuel e fc target kind w ≡ ret r
      → Ends fc r
  unfolding evaluate_found
  evaluate_found-Ends fc r h = by_kind (fc.kind == kind) refl h
    where
      by_kind :
          (b : Bool)
          → (fc.kind == kind) ≡ b
          → (if b
              then (prerequisites_block rt depth fuel e fc.prerequisites fc target >>= λ blocks.
                  if blocks
                  then ret (find_variation fc.variations fc.off_variation, w)
                  else (evaluate_flag rt depth (some q) fc target >>= λ v.
                      ret (finish rt depth fuel e fc target w v)))
              else ret (err (flag_kind_mismatch kind fc.kind), w))
            ≡ ret r
          → Ends fc r
      by_kind true same k =
          let (b, ran, left) =
            >>=-eq-ret (prerequisites_block rt depth fuel e fc.prerequisites fc target)
              (λ blocks.
                if blocks
                then ret (find_variation fc.variations fc.off_variation, w)
                else (evaluate_flag rt depth (some q) fc target >>= λ v.
                    ret (finish rt depth fuel e fc target w v)))
              k in
          blocks-Ends fc b r ((eq_iff fc.kind kind).0 same) ran left
      by_kind false other k =
          subst (Ends fc) (cc k) (mismatch (λ p. cc (other, (eq_iff fc.kind kind).1 p)))

  Ends-listed :
      {fc : FeatureConfig} {r : Result Error Rest.Variation × W}
      → Ends fc r
      → (v : Rest.Variation) → r.0 ≡ ok v
      → (fc.kind ≡ kind) × Any (λ u. u ≡ v) fc.variations
  Ends-listed (mismatch other) v h = cc
  Ends-listed {fc} (blocks k ran) v h =
      (k, (find_variation-ok fc.variations fc.off_variation v h).1)
  Ends-listed (fails x gives) v h = cc
  Ends-listed {fc} (serves u k free gives) v h =
      (k, evaluate_flag-listed rt depth (some q) fc target v (gives ∙ ap ret h))

  Ends-err :
      {fc : FeatureConfig} {r : Result Error Rest.Variation × W}
      → Ends fc r
      → (x : Error) → r.0 ≡ err x
      → r.1 ≡ w
  Ends-err (mismatch other) x h = refl
  Ends-err (blocks k ran) x h = refl
  Ends-err (fails y gives) x h = refl
  Ends-err (serves u k free gives) x h = cc

  evaluate_cases :
      (r : Result Error Rest.Variation × W)
      → evaluate rt depth fuel e id target kind w ≡ ret r
      → ((x : Error) × (r ≡ (err x, w)))
        ⊎ ((fc : FeatureConfig) × (q.get_flag id ≡ ok fc) × Ends fc r)
  unfolding evaluate
  evaluate_cases r h = by_flag (q.get_flag id) refl h
    where
      by_flag :
          (found : Result Error FeatureConfig)
          → q.get_flag id ≡ found
          → with_flag rt depth fuel e found target kind w ≡ ret r
          → ((x : Error) × (r ≡ (err x, w)))
            ⊎ ((fc : FeatureConfig) × (q.get_flag id ≡ ok fc) × Ends fc r)
      by_flag (err x) found k = inl (x, cc k)
      by_flag (ok fc) found k = inr (fc, found, evaluate_found-Ends fc r k)

  -- A variation that `evaluate` returns is one of the flag's own, and the flag has the kind that was
  -- asked for.
  pub evaluate-listed :
      (v : Rest.Variation) (w' : W)
      → evaluate rt depth fuel e id target kind w ≡ ret (ok v, w')
      → (fc : FeatureConfig) × (q.get_flag id ≡ ok fc)
        × (fc.kind ≡ kind)
        × Any (λ u. u ≡ v) fc.variations
  evaluate-listed v w' h = elim (evaluate_cases (ok v, w') h) [
    | inl (x, p) ↦ cc p
    | inr (fc, found, ends) ↦
        let (same, listed) = Ends-listed ends v refl in (fc, found, same, listed)
  ]

  -- An evaluation that ends in an error has not called the callback.
  pub evaluate-err :
      (x : Error) (w' : W) → evaluate rt depth fuel e id target kind w ≡ ret (err x, w') → w' ≡ w
  evaluate-err x w' h = elim (evaluate_cases (err x, w') h) [
    | inl (y, p) ↦ cc p
    | inr (fc, found, ends) ↦ Ends-err ends x refl
  ]

  -- A flag of the right kind whose prerequisites are not satisfied gives its off variation, and the
  -- callback is not called.
  pub evaluate-blocked :
      (fc : FeatureConfig) (ps : List Prerequisite)
      → q.get_flag id ≡ ok fc
      → fc.kind ≡ kind
      → fc.prerequisites ≡ some ps
      → check_pre_requisite rt depth fuel (some q) fc target ≡ ret (false, none)
      → evaluate rt depth fuel e id target kind w
        ≡ ret (find_variation fc.variations fc.off_variation, w)
  unfolding evaluate evaluate_found
  evaluate-blocked fc ps found same needs fails_ =
      rw found (rw ((eq_iff fc.kind kind).1 same) (blocked_by fc.prerequisites needs))
    where
      blocked_by :
          (needed : Option (List Prerequisite))
          → needed ≡ some ps
          → (prerequisites_block rt depth fuel e needed fc target >>= λ blocks.
              if blocks
              then ret (find_variation fc.variations fc.off_variation, w)
              else (evaluate_flag rt depth (some q) fc target >>= λ v.
                  ret (finish rt depth fuel e fc target w v)))
            ≡ ret (find_variation fc.variations fc.off_variation, w)
      blocked_by none k = cc
      blocked_by (some xs) k = rw fails_
