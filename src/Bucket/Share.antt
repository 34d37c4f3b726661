-- ===== src/Bucket/Share.antt =====
-- How many of the buckets of evaluation/util.go go to each variation of a rollout.
use ff_golang_server_sdk.Common.{
  ℕ, zero, suc, ◌+◌, ◌-◌, ◌<◌, String, ◌≡◌, ◌≢◌, refl, sym, ap, ◌∙◌, Bool, Option, some, List, [],
  ◌∷◌, ◌==◌, arith, if◌then◌else◌, sum_by,
}
use mathlib.Core.Path.{ap₂}
use native.Mathlib.Nat.{add-zero, add-suc}
use ff_golang_server_sdk.Go.{Runtime}
use ff_golang_server_sdk.Rest.{Distribution, WeightedVariation}
use ff_golang_server_sdk.Go.Text.{lower_is}
use ff_golang_server_sdk.Target.{Target, get_attr_value}
use ff_golang_server_sdk.Bucket.{evaluate_distribution, get_normalized_number}
use ff_golang_server_sdk.Bucket.Rollout.{
  weight, IsWeighted, pick, bucket, bucket_text, evaluate_distribution-pick,
}

-- How many numbers below `n` pass the test.
pub count_below : ℕ → (ℕ → Bool) → ℕ
count_below zero p = 0
count_below (suc n) p = (if p n then 1 else 0) + count_below n p

count_below-ext :
    (n : ℕ) (p q : ℕ → Bool) → ((i : ℕ) → i < n → p i ≡ q i) → count_below n p ≡ count_below n q
unfolding count_below
count_below-ext zero p q same = refl
count_below-ext (suc n) p q same =
    ground (arith, same n (omega arith), count_below-ext n p q (λ i h. same i (omega arith)))

count_below-const : (n : ℕ) (b : Bool) → count_below n (λ i. b) ≡ (if b then n else 0)
unfolding count_below
count_below-const zero b = ground arith
count_below-const (suc n) b = ground (arith, count_below-const n b)

count_below-add :
    (m n : ℕ) (p : ℕ → Bool)
    → count_below (m + n) p ≡ count_below m p + count_below n (λ i. p (m + i))
unfolding count_below
count_below-add m zero p = rw (add-zero m) (omega arith)
count_below-add m (suc n) p = rw add-suc (omega (arith, count_below-add m n p))

-- The weight of the entries for `v`.
abbrev pub share : String → List WeightedVariation → ℕ
share v = sum_by (λ wv. if wv.variation == v then weight wv else 0)

count_below-pick :
    (v last : String) (wvs : List WeightedVariation)
    → count_below (sum_by weight wvs) (λ i. pick (i + 1) last wvs == v) ≡ share v wvs
unfolding pick
count_below-pick v last [] = unfold count_below in refl
count_below-pick v last (wv ∷ wvs) =
    count_below-add w s test
    ∙ ap₂ ◌+◌
        (count_below-ext w test (λ _. wv.variation == v)
            (λ i h. ap (λ x. x == v) (within i (omega arith)))
          ∙ count_below-const w (wv.variation == v))
        (count_below-ext s (λ i. test (w + i)) (λ i. pick (i + 1) wv.variation wvs == v)
            (λ i h. ap (λ x. x == v) (past i))
          ∙ count_below-pick v wv.variation wvs)
  where
    w : ℕ
    w = weight wv

    s : ℕ
    s = sum_by weight wvs

    test : ℕ → Bool
    test i = pick (i + 1) last (wv ∷ wvs) == v

    within : (i : ℕ) → i < w → pick (i + 1) last (wv ∷ wvs) ≡ wv.variation
    within i h = ground arith

    past : (i : ℕ) → pick (w + i + 1) last (wv ∷ wvs) ≡ pick (i + 1) wv.variation wvs
    past i = let e : w + i + 1 - w ≡ i + 1 = omega arith in ground (arith, e)

-- The runtime with a constant hash: `n` runs over the residues that a hash can have.
abbrev pub hashing : Runtime → ℕ → Runtime
hashing rt n = record rt { murmur3 = λ _. n }

bucket-hashing :
    (rt : Runtime) (n : ℕ) (target : Option (Target rt.Float)) (bucket_by : String)
    → n < 100
    → bucket (hashing rt n) target bucket_by ≡ n + 1
unfolding get_normalized_number
bucket-hashing rt n target bucket_by h = omega arith

-- Of the 100 residues of the hash, each variation gets as many as its weight says, where the weights
-- are not negative and add up to 100 and the bucketing text is not empty.
pub evaluate_distribution-share :
    (rt : Runtime) (target : Option (Target rt.Float)) (d : Distribution) (v : String)
    → bucket_text rt target d.bucket_by ≢ ""
    → IsWeighted d.variations
    → sum_by weight d.variations ≡ 100
    → count_below 100 (λ n. evaluate_distribution (hashing rt n) (some d) target == v)
      ≡ share v d.variations
unfolding get_attr_value lower_is
evaluate_distribution-share rt target d v named valid full =
    count_below-ext 100 (λ n. evaluate_distribution (hashing rt n) (some d) target == v)
      (λ n. pick (n + 1) "" d.variations == v)
      (λ n h.
        ap (λ x. x == v)
          (evaluate_distribution-pick (hashing rt n) target d named valid
            ∙ ap (λ b. pick b "" d.variations) (bucket-hashing rt n target d.bucket_by h)))
    ∙ ap (λ m. count_below m (λ n. pick (n + 1) "" d.variations == v)) (sym full)
    ∙ count_below-pick v "" d.variations
