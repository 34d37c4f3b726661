-- ===== src/Feature/Rules.antt =====
-- The rollouts and the serving rules of evaluation/feature.go.
use ff_golang_server_sdk.Common.{
  ℕ, String, Bool, false, ◌&&◌, Option, none, some, List, [], ◌∷◌, ◌==◌, if◌then◌else◌,
}
use ff_golang_server_sdk.Common.Int.{ℤ, pos, ltb_ℤ, leb_ℤ, add64}
use ff_golang_server_sdk.Common.Run.{Run, ret, panic, ◌>>=◌, value_of}
use ff_golang_server_sdk.Go.{Runtime}
use ff_golang_server_sdk.Target.{Target, get_attr_value, value_string}
use ff_golang_server_sdk.Bucket.{one_hundred, get_normalized_number_with_normalizer}
use ff_golang_server_sdk.Feature.{WeightedVariation, Distribution, Serve, ServingRule, Segments}
use ff_golang_server_sdk.Feature.SegmentRules.{evaluate_clauses}

module _ (rt : Runtime) where
  -- `GetNormalizedNumber` of evaluation/strategy.go; the normalizer 100 does not panic.
  unfoldable pub get_normalized_number : String → String → ℕ
  unfolding get_normalized_number_with_normalizer
  get_normalized_number identifier bucket_by =
      value_of (get_normalized_number_with_normalizer rt identifier bucket_by (pos one_hundred)) tt

  -- `Distribution.isEnabled`
  unfoldable pub is_enabled : Distribution → Target rt.Float → ℤ → Bool
  unfolding get_normalized_number
  is_enabled d target percentage =
      let identifier = value_string (get_attr_value rt (some target) d.bucket_by) in
      if identifier == ""
      then false
      else ltb_ℤ (pos 0) percentage
        && leb_ℤ (pos (get_normalized_number identifier d.bucket_by)) percentage

  -- The loop of `GetKeyName`, with the variation and the total so far; then the rest up to 100.
  unfoldable pub key_name_loop :
      Distribution → Target rt.Float → String → ℤ → List WeightedVariation → String
  unfolding is_enabled add64
  key_name_loop d target variation total [] =
      if is_enabled d target (pos one_hundred) then variation else ""
  key_name_loop d target variation total (v ∷ variations) =
      let total' = add64 total v.weight in
      let rest = key_name_loop d target v.variation total' variations in
      if is_enabled d target total' then v.variation else rest

  -- `GetKeyName`
  unfoldable pub get_key_name : Distribution → Target rt.Float → String
  unfolding key_name_loop
  get_key_name d target = key_name_loop d target "" (pos 0) d.variations

  -- What a matched rule serves; a nil distribution panics.
  abbrev pub serve_name : Serve → Target rt.Float → Run String
  serve_name serve target = elim serve.variation [
    | some v ↦ ret v
    | none ↦ elim serve.distribution [ none ↦ panic | some d ↦ ret (get_key_name d target) ]
  ]

  -- The default of `ServingRules.GetVariationName`: the bucket of a distribution is computed, which
  -- panics on a nil target, and not used.
  unfoldable pub default_name : Serve → Option (Target rt.Float) → Run String
  default_name serve target = elim serve.variation [
    | some v ↦ ret v
    | none ↦ elim serve.distribution [
      | none ↦ ret ""
      | some d ↦ elim target [ none ↦ panic | some t ↦ ret "" ]
    ]
  ]

  unfoldable pub rules_loop : List ServingRule → Target rt.Float → Segments → Serve → Run String
  unfolding default_name
  rules_loop [] target segments default_serve = default_name default_serve (some target)
  rules_loop (rule ∷ rules) target segments default_serve =
      let rest = rules_loop rules target segments default_serve in
      evaluate_clauses rt rule.clauses target segments >>= λ matched.
      if matched then serve_name rule.serve target else rest

  -- `ServingRules.GetVariationName`
  unfoldable pub rules_variation_name :
      List ServingRule → Option (Target rt.Float) → Segments → Serve → Run String
  unfolding rules_loop
  rules_variation_name rules none segments default_serve = default_name default_serve none
  rules_variation_name rules (some t) segments default_serve =
      rules_loop rules t segments default_serve
