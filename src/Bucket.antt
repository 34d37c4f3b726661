-- ===== src/Bucket.antt =====
-- evaluation/util.go and evaluation/strategy.go: percentage rollouts.
pub mod Rollout
pub mod Share
use Prim.Native.String.{◌++◌}
use ff_golang_server_sdk.Common.{
  ℕ, zero, suc, ◌+◌, ◌%◌, String, Bool, false, ◌&&◌, Option, none, some, List, [], ◌∷◌, ◌==◌,
  if◌then◌else◌,
}
use ff_golang_server_sdk.Common.Int.{ℤ, pos, negsuc, ltb_ℤ, leb_ℤ, add64}
use ff_golang_server_sdk.Common.Run.{Run, ret, panic}
use ff_golang_server_sdk.Go.{Runtime}
use ff_golang_server_sdk.Rest.{Distribution, WeightedVariation}
use ff_golang_server_sdk.Target.{Target, get_attr_value, value_string}

abbrev pub one_hundred : ℕ
one_hundred = 100

module _ (rt : Runtime) where
  -- `GetNormalizedNumberWithNormalizer`; a remainder by 0 panics, and one by a negative number takes the
  -- sign of the hash, which is not negative.
  unfoldable pub get_normalized_number_with_normalizer : String → String → ℤ → Run ℕ
  get_normalized_number_with_normalizer identifier bucket_by (pos zero) = panic
  get_normalized_number_with_normalizer identifier bucket_by (pos (suc n)) =
      ret (rt.murmur3 (bucket_by ++ ":" ++ identifier) % suc n + 1)
  get_normalized_number_with_normalizer identifier bucket_by (negsuc n) =
      ret (rt.murmur3 (bucket_by ++ ":" ++ identifier) % suc n + 1)

  -- `getNormalizedNumber`
  unfoldable pub get_normalized_number : String → String → ℕ
  get_normalized_number identifier bucket_by =
      rt.murmur3 (bucket_by ++ ":" ++ identifier) % one_hundred + 1

  -- `isEnabled`
  unfoldable pub is_enabled : Option (Target rt.Float) → String → ℤ → Bool
  is_enabled target bucket_by percentage =
      let identifier = value_string (get_attr_value rt target bucket_by) in
      if identifier == ""
      then false
      else ltb_ℤ (pos 0) percentage
        && leb_ℤ (pos (get_normalized_number identifier bucket_by)) percentage

  -- The loop over the weighted variations, with `variation` and `totalPercentage` so far.
  unfoldable pub distribution_loop :
      Option (Target rt.Float) → String → String → ℤ → List WeightedVariation → String
  unfolding add64
  distribution_loop target bucket_by variation total [] = variation
  distribution_loop target bucket_by variation total (wv ∷ wvs) =
      let total' = add64 total wv.weight in
      let rest = distribution_loop target bucket_by wv.variation total' wvs in
      if is_enabled target bucket_by total' then wv.variation else rest

  -- `evaluateDistribution`
  unfoldable pub evaluate_distribution : Option Distribution → Option (Target rt.Float) → String
  unfolding distribution_loop
  evaluate_distribution none target = ""
  evaluate_distribution (some d) target =
      distribution_loop target d.bucket_by "" (pos 0) d.variations
