-- ===== src/Examples/Rollouts.antt =====
-- Percentage rollouts at the sample targets.
use ff_golang_server_sdk.Common.{◌≡◌, ◌≢◌, refl, true, some, ◌==◌, eq_iff, arith}
use ff_golang_server_sdk.Common.Int.{pos}
use ff_golang_server_sdk.Go.Text.{lower_is}
use ff_golang_server_sdk.Target.{get_attr_value, value_string}
use ff_golang_server_sdk.Bucket.{is_enabled, evaluate_distribution, get_normalized_number}
use ff_golang_server_sdk.Bucket.Rollout.{
  IsWeighted, pick, bucket, bucket_text, evaluate_distribution-pick,
}
use ff_golang_server_sdk.Bucket.Share.{count_below, share, hashing, evaluate_distribution-share}
use ff_golang_server_sdk.Samples.{runtime, ann, rollout}

ann_named : bucket_text runtime (some ann) "identifier" ≢ ""
unfolding get_attr_value value_string lower_is
ann_named = ground (arith, eq_iff "ann" "")

rollout-IsWeighted : IsWeighted (rollout "identifier").variations
rollout-IsWeighted = record { nonneg = (refl, (refl, tt)); small = omega arith }

ann_dark : evaluate_distribution runtime (some (rollout "identifier")) (some ann) ≡ "dark"
unfolding evaluate_distribution is_enabled get_attr_value value_string lower_is
    get_normalized_number
ann_dark = refl

evaluate_distribution-pick_example :
    evaluate_distribution runtime (some (rollout "identifier")) (some ann)
    ≡ pick (bucket runtime (some ann) "identifier") "" (rollout "identifier").variations
evaluate_distribution-pick_example =
    evaluate_distribution-pick runtime (some ann) (rollout "identifier") ann_named
      rollout-IsWeighted

evaluate_distribution-share_example :
    count_below 100 (λ n.
      evaluate_distribution (hashing runtime n) (some (rollout "identifier")) (some ann) == "dark")
    ≡ share "dark" (rollout "identifier").variations
evaluate_distribution-share_example =
    evaluate_distribution-share runtime (some ann) (rollout "identifier") "dark" ann_named
      rollout-IsWeighted refl

ann_enabled : is_enabled runtime (some ann) "identifier" (pos 99) ≡ true
unfolding is_enabled get_attr_value value_string lower_is get_normalized_number
ann_enabled = refl
