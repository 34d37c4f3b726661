-- ===== src/Feature/Rollouts.antt =====
-- `GetKeyName` of evaluation/feature.go against `evaluateDistribution` of evaluation/util.go.
use ff_golang_server_sdk.Common.{
  String, ◌≡◌, refl, true, false, Bool-cases, inl, inr, some, List, [], ◌∷◌, map, ◌==◌,
  if◌then◌else◌, arith,
}
use ff_golang_server_sdk.Common.Int.{ℤ, pos, add64}
use ff_golang_server_sdk.Go.{Runtime}
use ff_golang_server_sdk.Rest
use ff_golang_server_sdk.Target.{Target}
use ff_golang_server_sdk.Bucket
use ff_golang_server_sdk.Bucket.{evaluate_distribution, distribution_loop}
use ff_golang_server_sdk.Bucket.Rollout.{bucket_text}
use ff_golang_server_sdk.Feature.{WeightedVariation, Distribution}
use ff_golang_server_sdk.Feature.Rules.{is_enabled, key_name_loop, get_key_name}

-- The same rollout, as the service sends it.
abbrev pub to_weighted : WeightedVariation → Rest.WeightedVariation
to_weighted v = record { variation = v.variation; weight = v.weight }

abbrev pub to_distribution : Distribution → Rest.Distribution
to_distribution d = record { bucket_by = d.bucket_by; variations = map to_weighted d.variations }

module _ (rt : Runtime) (d : Distribution) (target : Target rt.Float) where
  is_enabled-same :
      (p : ℤ) → is_enabled rt d target p ≡ Bucket.is_enabled rt (some target) d.bucket_by p
  unfolding is_enabled Bucket.is_enabled Bucket.get_normalized_number
  is_enabled-same p = refl

  is_enabled-blank :
      (p : ℤ)
      → (bucket_text rt (some target) d.bucket_by == "") ≡ true
      → is_enabled rt d target p ≡ false
  unfolding is_enabled
  is_enabled-blank p e = rw e refl

  is_enabled-full :
      (bucket_text rt (some target) d.bucket_by == "") ≡ false
      → is_enabled rt d target (pos 100) ≡ true
  unfolding is_enabled
  is_enabled-full e = rw e (ground arith)

  key_name_loop-blank :
      (variation : String) (total : ℤ) (vs : List WeightedVariation)
      → (bucket_text rt (some target) d.bucket_by == "") ≡ true
      → key_name_loop rt d target variation total vs ≡ ""
  unfolding key_name_loop
  key_name_loop-blank variation total [] e = rw (is_enabled-blank (pos 100) e) refl
  key_name_loop-blank variation total (v ∷ vs) e =
      rw (is_enabled-blank (add64 total v.weight) e)
        (key_name_loop-blank v.variation (add64 total v.weight) vs e)

  key_name_loop-same :
      (variation : String) (total : ℤ) (vs : List WeightedVariation)
      → (bucket_text rt (some target) d.bucket_by == "") ≡ false
      → key_name_loop rt d target variation total vs
        ≡ distribution_loop rt (some target) d.bucket_by variation total (map to_weighted vs)
  unfolding key_name_loop distribution_loop
  key_name_loop-same variation total [] e = rw (is_enabled-full e) refl
  key_name_loop-same variation total (v ∷ vs) e =
      rw (is_enabled-same (add64 total v.weight))
        (rw (key_name_loop-same v.variation (add64 total v.weight) vs e) refl)

  -- The older rollout gives no variation to a target without a text to bucket by, and to any other the
  -- variation of the newer rollout, whatever the weights are.
  pub get_key_name-evaluate_distribution : get_key_name rt d target ≡ (
      if bucket_text rt (some target) d.bucket_by == ""
      then ""
      else evaluate_distribution rt (some (to_distribution d)) (some target))
  unfolding get_key_name evaluate_distribution
  get_key_name-evaluate_distribution =
      elim (Bool-cases (bucket_text rt (some target) d.bucket_by == "")) [
        | inl e ↦ rw e (key_name_loop-blank "" (pos 0) d.variations e)
        | inr e ↦ rw e (key_name_loop-same "" (pos 0) d.variations e)
      ]
