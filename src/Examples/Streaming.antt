-- ===== src/Examples/Streaming.antt =====
-- Events of the stream on the sample flags, and what a client then gives.
use ff_golang_server_sdk.Common.{
  ℕ, String, ◌≡◌, refl, Bool, false, Option, none, some, List, [], ◌∷◌, ◌++◌,
}
use ff_golang_server_sdk.Common.Int.{pos}
use ff_golang_server_sdk.Common.Dict.{lookup}
use ff_golang_server_sdk.Common.Run.{ret}
use ff_golang_server_sdk.Go.{Runtime}
use ff_golang_server_sdk.Go.Text.{lower_is}
use ff_golang_server_sdk.Target.{Target}
use ff_golang_server_sdk.Repository.{
  Item, flag_item, Call, Repository, flags, on_flag_stored, on_flag_deleted, outdated_by,
}
use ff_golang_server_sdk.Repository.AsQuery.{query_of}
use ff_golang_server_sdk.Repository.View.{IsTyped, view, cached, answer}
use ff_golang_server_sdk.Evaluator.Flag.{find_variation}
use ff_golang_server_sdk.FileStore.{file_storage}
use ff_golang_server_sdk.Analytics.{push_to_queue}
use ff_golang_server_sdk.Client.Evaluation.{Queue, bool_variation}
use ff_golang_server_sdk.Client.Evaluation.Pushed.{IsOff, handle_event-deleted}
use ff_golang_server_sdk.Stream.{Event, handle_event, publish}
use ff_golang_server_sdk.Samples.Flags.{flag, variation}
use ff_golang_server_sdk.Samples.Service.{net, service, client, decoders, off_flag}
use ff_golang_server_sdk.Client.Network.Served.{server_of, handle_event-served}
use ff_golang_server_sdk.Http.{apply_editors}
use ff_golang_server_sdk.Go.Text.{contains_text}
use ff_golang_server_sdk.Http.Requests.{new_get_feature_config_by_identifier_request}
use ff_golang_server_sdk.Http.Calls.Answers.{Delivered}
use ff_golang_server_sdk.Stream.{Message}
use ff_golang_server_sdk.Samples.Stores.{cache, cache-CacheLaws, server}

abbrev event : Event
event = record { api_key = "key"; environment = "prod"; message = "{}" }

abbrev held : List (String × Item)
held = ("flags/dark_mode", flag_item (flag "dark_mode" none)) ∷ []

abbrev no_calls : Option (List Call)
no_calls = some []

abbrev holding : List (String × Item) → Option (List Call) → Repository cache file_storage
holding = cached cache file_storage cache-CacheLaws

-- The answer of the client's `BoolVariation` over a state of the cache.
abbrev Gives :
    List (String × Item)
    → (Bool → (rt : Runtime) → Option (Target rt.Float) → Queue rt → Bool × Queue rt)
    → Type 1
Gives st' f =
    (rt : Runtime) (depth fuel : ℕ) (target : Option (Target rt.Float)) (default_value : Bool)
    (queue : Queue rt)
    → bool_variation rt depth fuel (query_of cache file_storage cache-CacheLaws st') "dark_mode"
        target default_value queue
      ≡ ret (((f default_value rt target queue).0, none), (f default_value rt target queue).1)

handle_event-deleted_example :
    (st' : List (String × Item)) × (handle_event cache file_storage
        (server "delete")
        event
        (record { repository = holding held no_calls; published = none })
      ≡ ret (record {
        repository = holding st' (some (on_flag_deleted "dark_mode" ∷ []));
        published = publish cache file_storage none event;
      }))
    × Gives st' (λ default_value rt target queue. (default_value, queue))
handle_event-deleted_example =
    handle_event-deleted cache file_storage cache-CacheLaws (server "delete") event
      (record { event = "delete"; domain = "flag"; identifier = "dark_mode"; version = pos 4 }) held
      no_calls none refl refl refl

off_fetched :
    outdated_by cache file_storage flags
      (answer cache file_storage cache-CacheLaws flags "dark_mode"
        (view cache file_storage cache-CacheLaws flags [] "dark_mode"))
      off_flag
    ≡ ret false
unfolding cache-CacheLaws lookup
off_fetched = refl

blank-IsTyped : IsTyped cache file_storage cache-CacheLaws flags []
unfolding cache-CacheLaws lookup
blank-IsTyped id item found = cc found

off_flag-IsOff : IsOff off_flag (variation "off" "false")
unfolding find_variation
off_flag-IsOff = record {
  boolean = refl;
  needs_none = refl;
  off = refl;
  named = refl;
  found = refl;
}

abbrev patch : Message
patch = record { event = "patch"; domain = "flag"; identifier = "dark_mode"; version = pos 4 }

-- What the service answers for the flag.
off-Delivered :
    Delivered net client service
      (new_get_feature_config_by_identifier_request net "https://ff/" "prod" "dark_mode")
      []
      decoders.feature_config
      off_flag
unfolding new_get_feature_config_by_identifier_request apply_editors contains_text
off-Delivered = record {
  request = _;
  was_built = refl;
  edited = _;
  was_edited = refl;
  raw = _;
  answered = refl;
  success = (refl, refl);
  body = _;
  was_read = refl;
  decoded = refl;
}

handle_event-served_example :
    (st' : List (String × Item)) × (handle_event cache file_storage
        (server_of net client service refl decoders (λ text. some patch))
        event
        (record { repository = holding [] no_calls; published = none })
      ≡ ret (record {
        repository = holding st' (some (on_flag_stored "dark_mode" ∷ []));
        published = publish cache file_storage none event;
      }))
    × Gives st' (λ default_value rt target queue. (
      lower_is rt "false" "true",
      queue ++ push_to_queue rt off_flag target (variation "off" "false") ∷ [],
    ))
handle_event-served_example =
    handle_event-served net client service refl decoders (λ text. some patch) cache file_storage
      cache-CacheLaws event patch [] no_calls none refl refl off_flag (variation "off" "false") refl
      off-Delivered blank-IsTyped off_fetched off_flag-IsOff
