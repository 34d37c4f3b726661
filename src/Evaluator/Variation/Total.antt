-- ===== src/Evaluator/Variation/Total.antt =====
-- `evaluate` and the typed variations of evaluation/evaluator.go: whether they return.
use ff_golang_server_sdk.Common.{
  ℕ, suc, ◌<◌, String, ◌≡◌, refl, Bool, Option, none, some, List, ◌==◌,
}
use ff_golang_server_sdk.Common.Run.{ret, Returns, Returns-value, Returns-bind, Result, ok, err}
use ff_golang_server_sdk.Go.{Runtime}
use ff_golang_server_sdk.Go.Text.{lower_is}
use ff_golang_server_sdk.Errors.{Error}
use ff_golang_server_sdk.Rest.{FeatureConfig, Prerequisite}
use ff_golang_server_sdk.Target.{Target}
use ff_golang_server_sdk.Evaluator.{Query, Evaluator, PostEvalData}
use ff_golang_server_sdk.Evaluator.Flag.{evaluate_flag, find_variation}
use ff_golang_server_sdk.Evaluator.Flag.Total.{evaluate_flag-Returns, if-Returns}
use ff_golang_server_sdk.Evaluator.Prerequisite.{check_pre_requisite}
use ff_golang_server_sdk.Evaluator.Prerequisite.Total.{IsSound, check_pre_requisite-Returns}
use ff_golang_server_sdk.Evaluator.Variation.{
  prerequisites_block, blocked, evaluate_found, with_flag, evaluate, typed_variation,
  bool_variation,
}

module _ (rt : Runtime) {W : Type 0} (depth fuel : ℕ) (q : Query)
    (callback : Option (PostEvalData rt → W → W)) (rank need : String → ℕ)
    (sound : IsSound q rank need depth) (id : String) (target : Option (Target rt.Float))
    (low : need id < fuel) where
  abbrev e : Evaluator rt W
  e = record { query = some q; post_eval_callback = callback }

  block-Returns :
      (ps : Option (List Prerequisite)) (fc : FeatureConfig)
      → q.get_flag id ≡ ok fc
      → Returns (prerequisites_block rt (suc depth) fuel e ps fc target)
  block-Returns none fc found = tt
  block-Returns (some ps) fc found =
      Returns-bind (check_pre_requisite rt (suc depth) fuel (some q) fc target)
        (λ r. ret (blocked rt (suc depth) fuel e r))
        (check_pre_requisite-Returns rt q rank need depth sound target fuel id fc found low)
        (λ r _. tt)

  found-Returns :
      (fc : FeatureConfig) (kind : String) (w : W)
      → q.get_flag id ≡ ok fc
      → Returns (evaluate_found rt (suc depth) fuel e fc target kind w)
  unfolding evaluate_found
  found-Returns fc kind w found =
      if-Returns (fc.kind == kind) _ _
        (Returns-bind (prerequisites_block rt (suc depth) fuel e fc.prerequisites fc target) _
          (block-Returns fc.prerequisites fc found)
          (λ blocks _.
            if-Returns blocks (ret (find_variation fc.variations fc.off_variation, w)) _ tt (
              Returns-bind (evaluate_flag rt (suc depth) (some q) fc target) _
                (evaluate_flag-Returns rt q rank sound.segments depth fc target
                  (sound.flags id fc found))
                (λ r _. tt))))
        tt

  -- `evaluate` returns for every flag identifier, target and kind, unknown flags included.
  pub evaluate-Returns :
      (kind : String) (w : W) → Returns (evaluate rt (suc depth) fuel e id target kind w)
  unfolding evaluate
  evaluate-Returns kind w = by_flag (q.get_flag id) refl
    where
      by_flag :
          (r : Result Error FeatureConfig)
          → q.get_flag id ≡ r
          → Returns (with_flag rt (suc depth) fuel e r target kind w)
      by_flag (err x) found = tt
      by_flag (ok fc) found = found-Returns fc kind w found

  -- Each of the five methods is such a call.
  pub typed_variation-Returns :
      {A : Type 0} (default_value : A) (read : String → Option A) (kind : String) (w : W)
      → Returns (typed_variation rt (suc depth) fuel e default_value read id target kind w)
  unfolding typed_variation
  typed_variation-Returns default_value read kind w =
      Returns-bind (evaluate rt (suc depth) fuel e id target kind w) _ (evaluate-Returns kind w)
        (λ r _. tt)

  -- `BoolVariation` returns a value, whatever the flag, the target and the default are, where the data
  -- of the query does not run in circles, its flags are well formed and the fuel passes the flag's rank.
  pub bool_variation-total :
      (default_value : Bool) (w : W)
      → (r : Bool × W) × (bool_variation rt (suc depth) fuel e id target default_value w ≡ ret r)
  unfolding bool_variation
  bool_variation-total default_value w =
      Returns-value (bool_variation rt (suc depth) fuel e id target default_value w)
        (typed_variation-Returns default_value (λ s. some (lower_is rt s "true")) "boolean" w)
