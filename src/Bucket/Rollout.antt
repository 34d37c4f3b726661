-- ===== src/Bucket/Rollout.antt =====
-- The rollouts of evaluation/util.go against buckets as intervals: `pick` is the independent
-- description.
use ff_golang_server_sdk.Common.{
  ℕ, ◌+◌, ◌-◌, ◌^◌, ◌≤◌, ◌<◌, String, ◌≡◌, ◌≢◌, refl, sym, ap, ◌∙◌, true, Option, some, List, [],
  ◌∷◌, eq_iff, arith, leb, if◌then◌else◌, Bool-cases, inl, inr, All, sum_by,
}
use ff_golang_server_sdk.Common.Int.{ℤ, pos, negsuc, pos_part, ◌≤ℤ◌, add64, add64-pos}
use ff_golang_server_sdk.Go.{Runtime}
use ff_golang_server_sdk.Rest.{Distribution, WeightedVariation}
use ff_golang_server_sdk.Target.{Target, int_value, IntType, get_attr_value, value_string}
use ff_golang_server_sdk.Bucket.{
  get_normalized_number, is_enabled, distribution_loop, evaluate_distribution,
}

-- The weight of an entry, where it is not negative.
abbrev pub weight : WeightedVariation → ℕ
weight wv = pos_part wv.weight

-- Weights that no 64-bit sum can overflow.
pub record IsWeighted (wvs : List WeightedVariation) : Type 0 where
  pub nonneg : All (λ wv. wv.weight ≡ pos (weight wv)) wvs
  pub small : sum_by weight wvs < 2 ^ 63

-- The variation whose interval of buckets holds `b`: the first takes 1 up to its weight, the next as
-- many behind it, and so on; buckets behind the last interval go to the last variation.
unfoldable pub pick : ℕ → String → List WeightedVariation → String
pick b last [] = last
pick b last (wv ∷ wvs) =
    let rest = pick (b - weight wv) wv.variation wvs in
    if leb b (weight wv) then wv.variation else rest

-- The text that is hashed.
abbrev pub bucket_text : (rt : Runtime) → Option (Target rt.Float) → String → String
bucket_text rt target bucket_by = value_string (get_attr_value rt target bucket_by)

module _ (rt : Runtime) (target : Option (Target rt.Float)) (bucket_by : String) where
  abbrev pub bucket : ℕ
  bucket = get_normalized_number rt (bucket_text rt target bucket_by) bucket_by

  bucket_pos : 0 < bucket
  unfolding get_normalized_number
  bucket_pos = omega arith

  bucket_le : bucket ≤ 100
  unfolding get_normalized_number
  bucket_le = omega arith

  is_enabled-pos :
      (p : ℕ)
      → bucket_text rt target bucket_by ≢ ""
      → is_enabled rt target bucket_by (pos p) ≡ leb bucket p
  unfolding is_enabled
  is_enabled-pos p named = ground (arith, bucket_pos, eq_iff (bucket_text rt target bucket_by) "")

  distribution_loop-pick :
      (last : String) (t b : ℕ) (wvs : List WeightedVariation)
      → bucket_text rt target bucket_by ≢ ""
      → All (λ wv. wv.weight ≡ pos (weight wv)) wvs
      → t + sum_by weight wvs < 2 ^ 63
      → bucket ≡ t + b
      → 0 < b
      → distribution_loop rt target bucket_by last (pos t) wvs ≡ pick b last wvs
  unfolding distribution_loop pick
  distribution_loop-pick last t b [] named nonneg small e h = refl
  distribution_loop-pick last t b (wv ∷ wvs) named nonneg small e h =
      let w : ℕ = weight wv in
      rw nonneg.0 (
        rw (add64-pos t w (omega arith)) (
          rw (is_enabled-pos (t + w) named) (elim (Bool-cases (leb b w)) [
            | inl within ↦ ground arith
            | inr past ↦ ground (
              arith,
              distribution_loop-pick wv.variation (t + w) (b - w) wvs named nonneg.1 (omega arith),
            )
          ])))

-- A rollout over a target with a non-empty bucketing text gives the variation whose interval of buckets
-- holds the target's bucket, for weights that are not negative and that no sum overflows.
pub evaluate_distribution-pick :
    (rt : Runtime) (target : Option (Target rt.Float)) (d : Distribution)
    → bucket_text rt target d.bucket_by ≢ ""
    → IsWeighted d.variations
    → evaluate_distribution rt (some d) target ≡ pick (bucket rt target d.bucket_by) "" d.variations
unfolding evaluate_distribution
evaluate_distribution-pick rt target d named valid =
    distribution_loop-pick rt target d.bucket_by "" 0 (bucket rt target d.bucket_by) d.variations
      named valid.nonneg (omega (arith, valid.small)) (omega arith)
      (bucket_pos rt target d.bucket_by)

-- Raising a percentage never takes a target out: whoever is in stays in.
pub is_enabled_mono :
    (rt : Runtime) (target : Option (Target rt.Float)) (bucket_by : String) (p q : ℤ)
    → p ≤ℤ q
    → is_enabled rt target bucket_by p ≡ true
    → is_enabled rt target bucket_by q ≡ true
unfolding is_enabled
is_enabled_mono rt target bucket_by (pos m) (pos n) le h = ground arith
is_enabled_mono rt target bucket_by (negsuc m) q le h = ground arith
is_enabled_mono rt target bucket_by p (negsuc n) le h = ground arith

distribution_loop-same :
    (rt : Runtime) (t u : Option (Target rt.Float)) (bucket_by last : String) (total : ℤ)
    (wvs : List WeightedVariation)
    → bucket_text rt t bucket_by ≡ bucket_text rt u bucket_by
    → distribution_loop rt t bucket_by last total wvs
      ≡ distribution_loop rt u bucket_by last total wvs
unfolding distribution_loop is_enabled
distribution_loop-same rt t u bucket_by last total [] e = refl
distribution_loop-same rt t u bucket_by last total (wv ∷ wvs) e =
    rw (e, distribution_loop-same rt t u bucket_by wv.variation (add64 total wv.weight) wvs e)

-- A rollout that buckets by an attribute of an integer type gives all targets the same variation,
-- whatever their numbers: only the type's name is hashed.
pub evaluate_distribution-int :
    (rt : Runtime) (t u : Target rt.Float) (d : Distribution) (type : IntType) (m n : ℤ)
    → get_attr_value rt (some t) d.bucket_by ≡ int_value type m
    → get_attr_value rt (some u) d.bucket_by ≡ int_value type n
    → evaluate_distribution rt (some d) (some t) ≡ evaluate_distribution rt (some d) (some u)
unfolding evaluate_distribution value_string
evaluate_distribution-int rt t u d type m n et eu =
    distribution_loop-same rt (some t) (some u) d.bucket_by "" (pos 0) d.variations
      (ap value_string et ∙ sym (ap value_string eu))
