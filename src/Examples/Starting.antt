-- ===== src/Examples/Starting.antt =====
-- The start, the polls and the end of a sample client.
use ff_golang_server_sdk.Common.{
  ℕ, String, ◌≡◌, refl, true, false, ◌&&◌, ◌||◌, Option, none, some, List, [], ◌∷◌, inl, inr,
}
use ff_golang_server_sdk.Common.Dict.{lookup}
use ff_golang_server_sdk.Common.Run.{ret, panic}
use ff_golang_server_sdk.Repository.{Item, Call, new}
use ff_golang_server_sdk.Repository.View.{cached}
use ff_golang_server_sdk.FileStore.{file_storage}
use ff_golang_server_sdk.Stream.{json200, not_ok, failed}
use ff_golang_server_sdk.Client.{Parts, CfClient, new_default_config, apply_options, new_cf_client}
use ff_golang_server_sdk.Analytics.{new_analytics_service}
use ff_golang_server_sdk.Client.Authentication.{
  Claims, split_dots, authenticate, init_authentication,
}
use ff_golang_server_sdk.Client.Polling.{
  Answers, poll, tick, stream_ended, cancelled, pull_cron_job,
}
use ff_golang_server_sdk.Client.Polling.Cron.{IsRunning, pull_cron_job-initialized}
use ff_golang_server_sdk.Client.Polling.States.{IsOrdered, poll-IsOrdered}
use ff_golang_server_sdk.Client.Polling.{retrieve_items}
use ff_golang_server_sdk.Client.Polling.Leaving.{Leaves}
use ff_golang_server_sdk.Client.Polling.Served.{retrieve_items-Leaves}
use ff_golang_server_sdk.Common.{eq_iff}
use ff_golang_server_sdk.Rest.{FeatureConfig}
use ff_golang_server_sdk.Repository.{flags, segments}
use ff_golang_server_sdk.Repository.View.{flags-IsKind}
use ff_golang_server_sdk.Repository.Typed.{flags-IsApart}
use ff_golang_server_sdk.Client.Closing.{close_both, before_check, close_both-panic}
use ff_golang_server_sdk.Samples.{runtime}
use ff_golang_server_sdk.Samples.Flags.{dark_mode}
use ff_golang_server_sdk.Samples.Stores.{cache, cache-CacheLaws, cache-RoomLaws}

abbrev parts : Parts
parts = record {
  Cache = ℕ;
  Store = ℕ;
  Logger = ℕ;
  HttpClient = ℕ;
  Listener = ℕ;
  set_cache_logger = λ logger c. c;
  set_store_logger = λ logger store. store;
  default_cache = 0;
  default_store = 0;
  default_logger = 0;
  default_http_client = 0;
}

-- A client as `NewCfClient` makes it.
abbrev client : CfClient runtime parts cache file_storage
client = record {
  sdk_key = "key";
  config = new_default_config runtime parts;
  repository = some (new cache file_storage []);
  environment_id = "";
  token = "";
  stream_connected = false;
  authenticated = false;
  initialized = false;
  analytics_service = new_analytics_service runtime 60;
  cluster_identifier = "1";
  stop = false;
  stopped = false;
}

client_made :
    new_cf_client runtime parts cache file_storage (some []) "key" [] ≡ (some client, none)
unfolding new_cf_client apply_options
client_made = refl

abbrev decode : String → Option Claims
decode payload = some (record { environment = some payload; cluster_identifier = some "2" })

abbrev logged_in : CfClient runtime parts cache file_storage
logged_in = record client {
  token = "head.prod.sign";
  environment_id = "prod";
  cluster_identifier = "2";
  authenticated = true;
}

second_attempt :
    init_authentication runtime parts cache file_storage decode true
      (failed ∷ json200 "head.prod.sign" ∷ [])
      client
    ≡ ret (none, logged_in)
unfolding init_authentication authenticate split_dots
second_attempt = refl

abbrev answers : Answers
answers = record {
  flags_answer = json200 (dark_mode ∷ []);
  segments_answer = not_ok;
  flags_first = true;
}

blank-IsOrdered : IsOrdered cache file_storage cache-CacheLaws []
unfolding cache-CacheLaws lookup
blank-IsOrdered = record { flags_typed = λ id item h. cc h; segments_typed = λ id item h. cc h }

poll-IsOrdered_example :
    (st' : List (String × Item)) × (calls' : Option (List Call)) × (client' : CfClient runtime parts
      cache file_storage)
    × (poll runtime parts cache file_storage answers client ≡ ret client')
    × (client'.repository ≡ some (cached cache file_storage cache-CacheLaws st' calls'))
    × (client'.initialized ≡ ((true && true) || false))
    × (client'.stream_connected ≡ ((true && true) && client.config.enable_stream))
    × IsOrdered cache file_storage cache-CacheLaws st'
unfolding new
poll-IsOrdered_example =
    poll-IsOrdered cache file_storage cache-CacheLaws runtime parts answers client [] none refl refl
      ((λ h. cc h), tt) tt blank-IsOrdered

abbrev failing : Answers
failing = record answers { flags_answer = failed }

pull_cron_job-initialized_example :
    (client' : CfClient runtime parts cache file_storage) × (pull_cron_job runtime parts cache
        file_storage failing
        (stream_ended ∷ tick answers ∷ cancelled ∷ [])
        client
      ≡ ret client')
    × IsRunning cache file_storage cache-CacheLaws runtime parts client'
    × (client'.initialized ≡ true)
unfolding new
pull_cron_job-initialized_example =
    pull_cron_job-initialized cache file_storage cache-CacheLaws runtime parts failing
      (stream_ended ∷ tick answers ∷ cancelled ∷ []) client
      (record {
        state = [];
        calls = none;
        held = refl;
        ordered = blank-IsOrdered;
        streams = λ h. cc h;
      })
      ((tt, tt), ((((λ h. cc h), tt), tt), tt)) (inr (inl refl))

close_both-panic_example :
    close_both runtime parts cache file_storage
      (true ∷ false ∷ true ∷ false ∷ [])
      before_check
      before_check
      client
    ≡ panic
close_both-panic_example =
    close_both-panic runtime parts cache file_storage client true false [] refl refl

abbrev two_flags : List FeatureConfig
two_flags = dark_mode ∷ record dark_mode { feature = "light" } ∷ []

room_for_two : cache-RoomLaws.HasRoom [] 2
unfolding cache-RoomLaws
room_for_two = tt

retrieve_items-Leaves_example :
    (st' : List (String × Item)) × (calls' : Option (List Call)) × (retrieve_items cache
        file_storage flags
        (json200 two_flags)
        (cached cache file_storage cache-CacheLaws [] none)
      ≡ ret (true, cached cache file_storage cache-CacheLaws st' calls'))
    × Leaves cache file_storage cache-CacheLaws flags [] st' two_flags
retrieve_items-Leaves_example =
    retrieve_items-Leaves cache file_storage cache-CacheLaws cache-RoomLaws flags segments
      flags-IsKind flags-IsApart [] none two_flags ((λ h. cc h), ((λ h. cc h), tt))
      (((λ h. cc ((eq_iff "dark_mode" "light").1 h)), tt), (tt, tt)) room_for_two
      blank-IsOrdered.flags_typed blank-IsOrdered.segments_typed
