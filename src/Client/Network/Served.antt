-- ===== src/Client/Network/Served.antt =====
-- The generated client of rest/services.gen.go as the API of stream/sse.go: what an event of the stream
-- does to the next `BoolVariation`, from the answer of the HTTP request on.
use ff_golang_server_sdk.Common.{
  ℕ, String, ◌≡◌, Bool, false, Option, none, some, List, [], ◌∷◌, ◌++◌, ◌==◌,
}
use ff_golang_server_sdk.Common.Run.{ret, value_of, value_of-ret}
use ff_golang_server_sdk.Go.{Runtime}
use ff_golang_server_sdk.Go.Text.{lower_is}
use ff_golang_server_sdk.Rest.{FeatureConfig, Variation}
use ff_golang_server_sdk.Target.{Target}
use ff_golang_server_sdk.Analytics.{push_to_queue}
use ff_golang_server_sdk.Repository.{
  Cache, Storage, Call, flags, called, on_flag_stored, outdated_by,
}
use ff_golang_server_sdk.Repository.View.{CacheLaws, IsTyped, cached, view, answer}
use ff_golang_server_sdk.Repository.AsQuery.{query_of}
use ff_golang_server_sdk.Stream.{
  Message, Event, Server, json200, handle_event, publish, key_feature, sse_delete_event,
}
use ff_golang_server_sdk.Http.{Net, HttpRequestDoer, Client}
use ff_golang_server_sdk.Http.Requests.{new_get_feature_config_by_identifier_request}
use ff_golang_server_sdk.Http.Parse.{Decoders}
use ff_golang_server_sdk.Http.Calls.Answers.{
  Delivered, seen_flag, seen_segment, seen_flag-Returns, seen_segment-Returns, seen_iff,
}
use ff_golang_server_sdk.Client.Evaluation.{Queue, bool_variation}
use ff_golang_server_sdk.Client.Evaluation.Pushed.{IsOff, handle_event-turned_off}

-- The API that `streamConnect` hands to the stream: the generated client, which has a doer, without more
-- editors.
unfoldable pub server_of :
    (net : Net) (client : Client net) (doer : HttpRequestDoer net)
    → client.client ≡ some doer
    → Decoders net.Bytes
    → (String → Option Message)
    → Server
server_of net client doer has_doer decoders unmarshal = record {
  get_feature_config_by_identifier = λ environment identifier.
      value_of (seen_flag net client decoders environment identifier [])
        (seen_flag-Returns net client decoders doer has_doer environment identifier []);
  get_segment_by_identifier = λ environment identifier.
      value_of (seen_segment net client decoders environment identifier [])
        (seen_segment-Returns net client decoders doer has_doer environment identifier []);
  unmarshal = unmarshal;
}

module _ (net : Net) (client : Client net) (doer : HttpRequestDoer net)
    (has_doer : client.client ≡ some doer) (decoders : Decoders net.Bytes)
    (unmarshal : String → Option Message) (c : Cache) (s : Storage) (laws : CacheLaws c)
    (event : Event) (msg : Message) (st : c.State) (calls : Option (List Call))
    (published : Option (List Event)) (parsed : unmarshal event.message ≡ some msg)
    (of_flag : msg.domain ≡ key_feature) (fc : FeatureConfig) (v : Variation)
    (updates : (msg.event == sse_delete_event) ≡ false)
    (delivered : Delivered net client doer
      (new_get_feature_config_by_identifier_request net client.server event.environment
        msg.identifier)
      []
      decoders.feature_config
      fc)
    (typed : IsTyped c s laws flags st)
    (fresh : outdated_by c s flags
        (answer c s laws flags fc.feature (view c s laws flags st fc.feature))
        fc
      ≡ ret false)
    (off : IsOff fc v) where
  fetched :
      (server_of net client doer has_doer decoders unmarshal).get_feature_config_by_identifier
        event.environment msg.identifier
      ≡ json200 fc
  unfolding server_of
  fetched =
      value_of-ret (seen_flag net client decoders event.environment msg.identifier [])
        (seen_flag-Returns net client decoders doer has_doer event.environment msg.identifier [])
        (json200 fc)
        (((seen_iff net client decoders doer has_doer event.environment msg.identifier []).1 fc).1
          delivered)

  -- From the service to the application: the generated client has a doer, and an event of the stream has a
  -- message on a flag that is no delete event. When the request for the flag is answered with status 200
  -- and JSON content that decodes to a Boolean flag which is off, needs no other flag, has its off
  -- variation and is not outdated, then behind the event `BoolVariation` on the flag gives the off
  -- variation for every target and queues one event for analytics. The repository has no storage and
  -- holds only flags under the keys of flags.
  pub handle_event-served :
      (st' : c.State) × (handle_event c s
          (server_of net client doer has_doer decoders unmarshal)
          event
          (record { repository = cached c s laws st calls; published = published })
        ≡ ret (record {
          repository = cached c s laws st' (called c s calls (on_flag_stored fc.feature));
          published = publish c s published event;
        }))
      × ((rt : Runtime) (depth fuel : ℕ) (target : Option (Target rt.Float)) (default_value : Bool)
            (queue : Queue rt)
          → bool_variation rt depth fuel
              (query_of c s laws st')
              fc.feature
              target
              default_value
              queue
            ≡ ret ((lower_is rt v.value "true", none), queue ++ push_to_queue rt fc target v ∷ []))
  unfolding server_of
  handle_event-served =
      handle_event-turned_off c s laws (server_of net client doer has_doer decoders unmarshal) event
        msg st calls published parsed of_flag fc v updates fetched typed fresh off
