-- ===== src/Client/Evaluation.antt =====
-- The evaluation side of client/client.go: `PostEvaluateProcessor`, the variation methods,
-- `setAnalyticsServiceClient` behind the authentication, and the getters. The channel of the
-- analytics service is a list, the first event to come out first.
pub mod Pushed
use ff_golang_server_sdk.Common.{
  ℕ, String, Bool, Option, none, some, List, [], ◌∷◌, ◌++◌, if◌then◌else◌,
}
use ff_golang_server_sdk.Common.Int.{ℤ}
use ff_golang_server_sdk.Common.Run.{Run, ret, ◌>>=◌}
use ff_golang_server_sdk.Go.{Runtime}
use ff_golang_server_sdk.Target.{Target}
use ff_golang_server_sdk.Evaluator.{Query, Evaluator, PostEvalData}
use ff_golang_server_sdk.Evaluator.Variation
use ff_golang_server_sdk.Repository.{Cache, Storage}
use ff_golang_server_sdk.Analytics.{AnalyticsEvent, push_to_queue, start}
use ff_golang_server_sdk.Client.{ClientError, Parts, CfClient}

module _ (rt : Runtime) where
  -- The events in the channel.
  abbrev pub Queue : Type 0
  Queue = List (AnalyticsEvent rt)

  -- `PostEvaluateProcessor`
  unfoldable pub post_evaluate_processor : PostEvalData rt → Queue → Queue
  unfolding push_to_queue
  post_evaluate_processor event queue =
      queue ++ push_to_queue rt event.feature_config event.target event.variation ∷ []

  -- The evaluator of a client, over what its repository answers.
  abbrev pub evaluator : Query → Evaluator rt Queue
  evaluator q = record { query = some q; post_eval_callback = some post_evaluate_processor }

  -- A value with a nil error.
  abbrev pub no_error : {A : Type 0} → A × Queue → (A × Option ClientError) × Queue
  no_error (value, queue) = ((value, none), queue)

  module _ (depth fuel : ℕ) (q : Query) where
    -- `BoolVariation`, `StringVariation`, `IntVariation`, `NumberVariation`, `JSONVariation`
    unfoldable pub bool_variation :
        String → Option (Target rt.Float) → Bool → Queue → Run ((Bool × Option ClientError) × Queue)
    unfolding Variation.bool_variation post_evaluate_processor
    bool_variation key target default_value queue =
        Variation.bool_variation rt depth fuel (evaluator q) key target default_value queue >>= λ r.
        ret (no_error r)

    unfoldable pub string_variation :
        String
        → Option (Target rt.Float)
        → String
        → Queue
        → Run ((String × Option ClientError) × Queue)
    unfolding Variation.string_variation post_evaluate_processor
    string_variation key target default_value queue =
        Variation.string_variation rt depth fuel (evaluator q) key target default_value queue
        >>= λ r. ret (no_error r)

    unfoldable pub int_variation :
        String → Option (Target rt.Float) → ℤ → Queue → Run ((ℤ × Option ClientError) × Queue)
    unfolding Variation.int_variation post_evaluate_processor
    int_variation key target default_value queue =
        Variation.int_variation rt depth fuel (evaluator q) key target default_value queue >>= λ r.
        ret (no_error r)

    unfoldable pub number_variation :
        String
        → Option (Target rt.Float)
        → rt.Float
        → Queue
        → Run ((rt.Float × Option ClientError) × Queue)
    unfolding Variation.number_variation post_evaluate_processor
    number_variation key target default_value queue =
        Variation.number_variation rt depth fuel (evaluator q) key target default_value queue
        >>= λ r. ret (no_error r)

    unfoldable pub json_variation :
        String
        → Option (Target rt.Float)
        → rt.Json
        → Queue
        → Run ((rt.Json × Option ClientError) × Queue)
    unfolding Variation.json_variation post_evaluate_processor
    json_variation key target default_value queue =
        Variation.json_variation rt depth fuel (evaluator q) key target default_value queue >>= λ r.
        ret (no_error r)

  module _ (parts : Parts) (c : Cache) (s : Storage) where
    -- `setAnalyticsServiceClient`
    unfoldable pub set_analytics_service_client : CfClient rt parts c s → CfClient rt parts c s
    unfolding start
    set_analytics_service_client client =
        if client.config.enable_analytics
        then record client { analytics_service = start rt client.analytics_service }
        else client

    -- `IsStreamConnected`, `GetClusterIdentifier`
    unfoldable pub is_stream_connected : CfClient rt parts c s → Bool
    is_stream_connected client = client.stream_connected

    unfoldable pub get_cluster_identifier : CfClient rt parts c s → String
    get_cluster_identifier client = client.cluster_identifier

    -- `Environment`
    unfoldable pub environment : CfClient rt parts c s → String
    environment client = client.environment_id
