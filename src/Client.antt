-- ===== src/Client.antt =====
-- client/client.go, client/config.go and client/options.go: the configuration, the client's state and
-- `NewCfClient`. The children hold the goroutines that `start` runs, and `Close`.
pub mod Authentication
pub mod Polling
pub mod Closing
pub mod Evaluation
pub mod Network
use ff_golang_server_sdk.Common.{
  ℕ, String, Bool, true, false, Option, none, some, List, [], ◌∷◌, ◌==◌, if◌then◌else◌,
}
use ff_golang_server_sdk.Go.{Runtime}
use ff_golang_server_sdk.Target.{Target}
use ff_golang_server_sdk.Repository.{Cache, Storage, Repository, new}
use ff_golang_server_sdk.Analytics.{AnalyticsService, new_analytics_service}

-- The errors of the client.
pub data ClientError : Type 0 where
  sdk_cant_be_empty lru_failed request_failed unauthorized decode_failed : ClientError
  environment_not_present cluster_not_present client_setup_failed : ClientError
  timeout_waiting_to_initialize client_already_closed : ClientError

-- The values that a configuration carries to the libraries.
pub record Parts : Type 1 where
  pub Cache : Type 0
  pub Store : Type 0
  pub Logger : Type 0
  pub HttpClient : Type 0
  pub Listener : Type 0
  pub set_cache_logger : Logger → Cache → Cache
  pub set_store_logger : Logger → Store → Store
  pub default_cache : Cache
  pub default_store : Store
  pub default_logger : Logger
  pub default_http_client : HttpClient

module _ (rt : Runtime) (parts : Parts) where
  -- `config`; a zero target is `none`
  pub record Config : Type 0 where
    pub url : String
    pub events_url : String
    pub pull_interval : ℕ
    pub cache : parts.Cache
    pub store : parts.Store
    pub logger : parts.Logger
    pub http_client : parts.HttpClient
    pub enable_stream : Bool
    pub enable_store : Bool
    pub target : Option (Target rt.Float)
    pub event_stream_listener : Option parts.Listener
    pub enable_analytics : Bool

  -- `newDefaultConfig`
  unfoldable pub new_default_config : Config
  new_default_config = record {
    url = "https://config.ff.harness.io/api/1.0";
    events_url = "https://events.ff.harness.io/api/1.0";
    pull_interval = 60;
    cache = parts.default_cache;
    store = parts.default_store;
    logger = parts.default_logger;
    http_client = parts.default_http_client;
    enable_stream = true;
    enable_store = true;
    target = none;
    event_stream_listener = none;
    enable_analytics = true;
  }

  abbrev pub ConfigOption : Type 0
  ConfigOption = Config → Config

  unfoldable pub with_analytics_enabled : Bool → ConfigOption
  with_analytics_enabled val config = record config { enable_analytics = val }

  unfoldable pub with_url : String → ConfigOption
  with_url url config = record config { url = url }

  unfoldable pub with_events_url : String → ConfigOption
  with_events_url url config = record config { events_url = url }

  unfoldable pub with_pull_interval : ℕ → ConfigOption
  with_pull_interval interval config = record config { pull_interval = interval }

  unfoldable pub with_cache : parts.Cache → ConfigOption
  with_cache cache config = record config { cache = parts.set_cache_logger config.logger cache }

  unfoldable pub with_store : parts.Store → ConfigOption
  with_store store config = record config { store = parts.set_store_logger config.logger store }

  unfoldable pub with_logger : parts.Logger → ConfigOption
  with_logger logger config = record config { logger = logger }

  unfoldable pub with_stream_enabled : Bool → ConfigOption
  with_stream_enabled val config = record config { enable_stream = val }

  unfoldable pub with_store_enabled : Bool → ConfigOption
  with_store_enabled val config = record config { enable_store = val }

  unfoldable pub with_http_client : parts.HttpClient → ConfigOption
  with_http_client client config = record config { http_client = client }

  unfoldable pub with_target : Target rt.Float → ConfigOption
  with_target target config = record config { target = some target }

  unfoldable pub with_event_stream_listener : Option parts.Listener → ConfigOption
  with_event_stream_listener e config = record config { event_stream_listener = e }

  unfoldable pub apply_options : List ConfigOption → Config → Config
  apply_options [] config = config
  apply_options (opt ∷ options) config = apply_options options (opt config)

  module _ (c : Cache) (s : Storage) where
    -- `CfClient`, less its locks. `authenticated` and `stop` say whether the channel is closed.
    pub record CfClient : Type 0 where
      pub sdk_key : String
      pub config : Config
      pub repository : Option (Repository c s)
      pub environment_id : String
      pub token : String
      pub stream_connected : Bool
      pub authenticated : Bool
      pub initialized : Bool
      pub analytics_service : AnalyticsService rt
      pub cluster_identifier : String
      pub stop : Bool
      pub stopped : Bool

    abbrev blank_client : String → Config → CfClient
    blank_client sdk_key config = record {
      sdk_key = sdk_key;
      config = config;
      repository = none;
      environment_id = "";
      token = "";
      stream_connected = false;
      authenticated = false;
      initialized = false;
      analytics_service = new_analytics_service rt 60;
      cluster_identifier = "1";
      stop = false;
      stopped = false;
    }

    abbrev with_lru : Option c.State → CfClient → Option CfClient × Option ClientError
    with_lru none client = (none, some lru_failed)
    with_lru (some cache) client =
        (some (record client { repository = some (new c s cache) }), none)

    -- `NewCfClient`; `lru` is what `repository.NewLruCache(10000)` gives. The goroutines that it starts
    -- are the functions of the children.
    unfoldable pub new_cf_client :
        (lru : Option c.State) → String → List ConfigOption → Option CfClient × Option ClientError
    unfolding apply_options
    new_cf_client lru sdk_key options =
        let client = blank_client sdk_key (apply_options options new_default_config) in
        if sdk_key == "" then (some client, some sdk_cant_be_empty) else with_lru lru client
