-- ===== src/Analytics.antt =====
-- analyticsservice/analytics.go, with the data of metricsclient/types.gen.go: the events that evaluations
-- push, their summary in a map, and the payload that is posted. The range over a Go map takes one of many
-- orders; the model takes the order of the list. Counts are plain numbers: they start at 1 and grow by 1.
pub mod Counts
pub mod Turns
pub mod Tally
use Prim.Native.String.{◌++◌}
use Prim.Native.Nat.{◌*◌}
use ff_golang_server_sdk.Common.{
  ℕ, ◌+◌, String, Bool, true, false, ◌&&◌, Option, none, some, List, [], ◌∷◌, map, ◌==◌, ltb,
  if◌then◌else◌,
}
use ff_golang_server_sdk.Common.Dict.{lookup, insert}
use ff_golang_server_sdk.Common.Int.{ℤ}
use ff_golang_server_sdk.Go.{Runtime}
use ff_golang_server_sdk.Go.Number.{format_int, format_bool}
use ff_golang_server_sdk.Rest.{FeatureConfig, Variation}
use ff_golang_server_sdk.Target.{
  Target, Value, invalid, bool_value, int_value, string_value, int, int64,
}

abbrev pub ff_metric_type : String
ff_metric_type = "FFMETRICS"

abbrev pub global_target : String
global_target = "global"

-- `analyticsEvent`
pub record AnalyticsEvent (rt : Runtime) : Type 0 where
  pub target : Option (Target rt.Float)
  pub feature_config : FeatureConfig
  pub variation : Variation
  pub count : ℕ

pub record KeyValue : Type 0 where
  pub key : String
  pub value : String

pub record MetricsData : Type 0 where
  pub attributes : List KeyValue
  pub count : ℕ
  pub metrics_type : String
  pub timestamp : ℕ

pub record TargetData : Type 0 where
  pub attributes : List KeyValue
  pub identifier : String
  pub name : String

pub record Metrics : Type 0 where
  pub metrics_data : Option (List MetricsData)
  pub target_data : Option (List TargetData)

-- The clamp of `NewAnalyticsService`, in seconds.
unfoldable pub service_timeout : ℕ → ℕ
service_timeout timeout =
    if ltb timeout 60 then 60 else if ltb (60 * 60) timeout then 60 * 60 else timeout

-- `getEventSummaryKey`
unfoldable pub get_event_summary_key : {rt : Runtime} → AnalyticsEvent rt → String
get_event_summary_key event =
    event.feature_config.feature ++ "-" ++ event.variation.identifier ++ "-"
    ++ event.variation.value ++ "-" ++ global_target

abbrev pub is_anonymous : Option Bool → Bool
is_anonymous none = false
is_anonymous (some b) = b

module _ (rt : Runtime) where
  -- `AnalyticsService`: its data, and whether it has a metrics client. The channel is the list of events
  -- that `listener` is run on.
  pub record AnalyticsService : Type 0 where
    pub analytics_data : List (String × AnalyticsEvent rt)
    pub timeout : ℕ
    pub metrics_client : Bool

  -- `NewAnalyticsService`
  unfoldable pub new_analytics_service : ℕ → AnalyticsService
  unfolding service_timeout
  new_analytics_service timeout = record {
    analytics_data = [];
    timeout = service_timeout timeout;
    metrics_client = false;
  }

  -- `Start`: a client is set, and the timer runs.
  unfoldable pub start : AnalyticsService → AnalyticsService
  start service = record service { metrics_client = true }

  -- The event that `PushToQueue` sends.
  unfoldable pub push_to_queue :
      FeatureConfig → Option (Target rt.Float) → Variation → AnalyticsEvent rt
  push_to_queue feature_config target variation = record {
    target = target;
    feature_config = feature_config;
    variation = variation;
    count = 0;
  }

  abbrev pub counted : Option (AnalyticsEvent rt) → AnalyticsEvent rt → AnalyticsEvent rt
  counted none ad = record ad { count = 1 }
  counted (some analytic) ad = record ad { count = analytic.count + 1 }

  -- The body of the loop of `listener`.
  unfoldable pub listen :
      List (String × AnalyticsEvent rt) → AnalyticsEvent rt → List (String × AnalyticsEvent rt)
  unfolding get_event_summary_key
  listen analytics_data ad =
      let key = get_event_summary_key ad in
      insert key (counted (lookup key analytics_data) ad) analytics_data

  -- `listener`
  unfoldable pub listener :
      List (String × AnalyticsEvent rt)
      → List (AnalyticsEvent rt)
      → List (String × AnalyticsEvent rt)
  unfolding listen
  listener analytics_data [] = analytics_data
  listener analytics_data (ad ∷ events) = listener (listen analytics_data ad) events

  -- `convertInterfaceToString`; `sprint` is `fmt.Sprintf("%v", v)`, which formats floats and the rest
  unfoldable pub convert_interface_to_string :
      (sprint : Value rt.Float → String) → Value rt.Float → String
  convert_interface_to_string sprint invalid = "nil"
  convert_interface_to_string sprint (string_value s) = s
  convert_interface_to_string sprint (int_value int z) = format_int z
  convert_interface_to_string sprint (int_value int64 z) = format_int z
  convert_interface_to_string sprint (bool_value b) = format_bool b
  convert_interface_to_string sprint v = sprint v

  -- The metrics of one entry.
  unfoldable pub metrics_of : (now : ℕ) → AnalyticsEvent rt → MetricsData
  metrics_of now analytic = record {
    timestamp = now;
    count = analytic.count;
    metrics_type = ff_metric_type;
    attributes =
        record { key = "featureIdentifier"; value = analytic.feature_config.feature }
        ∷ record { key = "featureName"; value = analytic.feature_config.feature }
        ∷ record { key = "variationIdentifier"; value = analytic.variation.identifier }
        ∷ record { key = "featureValue"; value = analytic.variation.value }
        ∷ record { key = "SDK_TYPE"; value = "server" }
        ∷ record { key = "SDK_LANGUAGE"; value = "go" }
        ∷ record { key = "SDK_VERSION"; value = "1.0.0" }
        ∷ record { key = "target"; value = global_target }
        ∷ [];
  }

  module _ (sprint : Value rt.Float → String) where
    abbrev target_attributes : Option (List (String × Value rt.Float)) → List KeyValue
    target_attributes none = []
    target_attributes (some attributes) =
        map (λ entry. record { key = entry.0; value = convert_interface_to_string sprint entry.1 })
          attributes

    unfoldable pub target_data_of : Target rt.Float → TargetData
    unfolding convert_interface_to_string
    target_data_of t = record {
      attributes = target_attributes t.attributes;
      identifier = t.identifier;
      name = if t.name == "" then t.identifier else t.name;
    }

    -- One event's target, which joins the map under its identifier unless it is nil or anonymous.
    abbrev pub add_target :
        Option (Target rt.Float) → List (String × TargetData) → List (String × TargetData)
    add_target none targets = targets
    add_target (some t) targets =
        if is_anonymous t.anonymous then targets else insert t.identifier (target_data_of t) targets

    -- The targets of the summary.
    unfoldable pub collect_targets :
        List (String × AnalyticsEvent rt) → List (String × TargetData) → List (String × TargetData)
    unfolding target_data_of
    collect_targets [] targets = targets
    collect_targets ((key, analytic) ∷ entries) targets =
        collect_targets entries (add_target analytic.target targets)

    -- `targetDataMapToArray`, and nil for an empty map
    abbrev target_data_payload : List (String × TargetData) → Option (List TargetData)
    target_data_payload [] = none
    target_data_payload (t ∷ targets) = some (map (λ entry. entry.1) (t ∷ targets))

    unfoldable pub payload : (now : ℕ) → List (String × AnalyticsEvent rt) → Metrics
    unfolding collect_targets metrics_of
    payload now analytics_data = record {
      metrics_data = some (map (λ entry. metrics_of now entry.1) analytics_data);
      target_data = target_data_payload (collect_targets analytics_data []);
    }

    abbrev is_empty : {A : Type 0} → Option (List A) → Bool
    is_empty none = true
    is_empty (some []) = true
    is_empty (some (x ∷ xs)) = false

    -- `sendDataAndResetCache`: what is posted, if anything, and the service with its cache reset. What the
    -- post answers is only logged.
    unfoldable pub send_data_and_reset_cache :
        (now : ℕ) → AnalyticsService → Option Metrics × AnalyticsService
    unfolding payload
    send_data_and_reset_cache now service =
        let body = payload now service.analytics_data in
        (
          if service.metrics_client
              then (if is_empty body.metrics_data && is_empty body.target_data
                  then none
                  else some body)
              else none,
          record service { analytics_data = [] },
        )
