-- ===== src/Evaluator/Variation/Source.antt =====
-- The typed variations of evaluation/evaluator.go: where their value comes from.
use mathlib.Core.Path.{subst}
use ff_golang_server_sdk.Common.{ℕ, String, ◌≡◌, refl, Option, none, some, ◌⊎◌, inl, inr, Any}
use ff_golang_server_sdk.Common.Int.{ℤ}
use ff_golang_server_sdk.Common.Run.{ret, >>=-eq-ret, Result, ok, err}
use ff_golang_server_sdk.Go.{Runtime}
use ff_golang_server_sdk.Go.Number.{parse_int}
use ff_golang_server_sdk.Errors.{Error}
use ff_golang_server_sdk.Rest.{FeatureConfig, Prerequisite, feature_state_on}
use ff_golang_server_sdk.Rest
use ff_golang_server_sdk.Target.{Target}
use ff_golang_server_sdk.Evaluator.{Query, Evaluator, PostEvalData}
use ff_golang_server_sdk.Evaluator.Variation.{
  evaluate, typed_variation, read_variation, int_variation,
}
use ff_golang_server_sdk.Evaluator.Variation.Outcome.{evaluate-listed}

module _ (rt : Runtime) {W : Type 0} (depth fuel : ℕ) (q : Query)
    (callback : Option (PostEvalData rt → W → W)) (id : String) (target : Option (Target rt.Float))
    (kind : String) (w : W) where
  abbrev e : Evaluator rt W
  e = record { query = some q; post_eval_callback = callback }

  module _ {A : Type 0} (default_value : A) (read : String → Option A) where
    -- The value is the default, or what `read` makes of a variation of the flag.
    abbrev pub HasSource : A → Type 0
    HasSource a =
        (a ≡ default_value)
        ⊎ ((fc : FeatureConfig) × (v : Rest.Variation) × (q.get_flag id ≡ ok fc)
            × Any (λ u. u ≡ v) fc.variations
            × (read v.value ≡ some a))

    read-HasSource :
        (r : Result Error Rest.Variation) (w' : W)
        → evaluate rt depth fuel e id target kind w ≡ ret (r, w')
        → HasSource (read_variation rt depth fuel e default_value read r)
    read-HasSource (err x) w' h = inl refl
    read-HasSource (ok v) w' h = by_read (read v.value) refl
      where
        by_read :
            (o : Option A)
            → read v.value ≡ o
            → HasSource (elim o [ none ↦ default_value | some a ↦ a ])
        by_read none p = inl refl
        by_read (some a) p =
            let (fc, found, same, listed) =
              evaluate-listed rt depth fuel q callback id target kind w v w' h in
            inr (fc, v, found, listed, p)

    pub typed-HasSource :
        (a : A) (w' : W)
        → typed_variation rt depth fuel e default_value read id target kind w ≡ ret (a, w')
        → HasSource a
    unfolding typed_variation
    typed-HasSource a w' h =
        let (r, ran, left) =
          >>=-eq-ret (evaluate rt depth fuel e id target kind w)
            (λ r. ret (read_variation rt depth fuel e default_value read r.0, r.1)) h in
        subst HasSource (cc left) (read-HasSource r.0 r.1 ran)

-- `IntVariation` gives the default, or the number that a variation of the flag spells.
pub int_variation-source :
    (rt : Runtime) {W : Type 0} (depth fuel : ℕ) (q : Query)
    (callback : Option (PostEvalData rt → W → W)) (id : String) (target : Option (Target rt.Float))
    (w : W) (default_value n : ℤ) (w' : W)
    → int_variation rt depth fuel
        (record { query = some q; post_eval_callback = callback })
        id
        target
        default_value
        w
      ≡ ret (n, w')
    → (n ≡ default_value)
      ⊎ ((fc : FeatureConfig) × (v : Rest.Variation) × (q.get_flag id ≡ ok fc)
          × Any (λ u. u ≡ v) fc.variations
          × (parse_int v.value ≡ some n))
unfolding int_variation
int_variation-source rt depth fuel q callback id target w default_value n w' h =
    typed-HasSource rt depth fuel q callback id target "int" w default_value parse_int n w' h
