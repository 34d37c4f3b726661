-- ===== src/Stream.antt =====
-- stream/sse.go, stream/message.go, stream/stream.go and dto/key.go: the events of the stream and what
-- they do to the repository.
pub mod Updates
use ff_golang_server_sdk.Common.{
  ℕ, String, Bool, true, false, ◌&&◌, Option, none, some, List, [], ◌∷◌, ◌==◌, if◌then◌else◌,
}
use ff_golang_server_sdk.Common.Int.{ℤ}
use ff_golang_server_sdk.Common.Run.{Run, ret, ◌>>=◌}
use ff_golang_server_sdk.Rest.{FeatureConfig, Segment}
use ff_golang_server_sdk.Repository.{
  Cache, Storage, Repository, set_flag, set_segment, delete_flag, delete_segment,
}

abbrev pub key_feature : String
key_feature = "flag"

abbrev pub key_segment : String
key_segment = "target-segment"

abbrev pub sse_patch_event : String
sse_patch_event = "patch"

abbrev pub sse_delete_event : String
sse_delete_event = "delete"

abbrev pub sse_create_event : String
sse_create_event = "create"

-- `Message`
pub record Message : Type 0 where
  pub event : String
  pub domain : String
  pub identifier : String
  pub version : ℤ

-- `Event`, with the data of its SSE event
pub record Event : Type 0 where
  pub api_key : String
  pub environment : String
  pub message : String

-- What a request of the API gives: an error, a response without a body of status 200, or that body.
pub data Response (A : Type 0) : Type 0 where
  failed : Response A
  not_ok : Response A
  json200 : A → Response A

-- The calls of `rest.ClientWithResponsesInterface`, by environment and identifier, and
-- `json.Unmarshal` into a `Message`, where `none` is an error.
pub record Server : Type 0 where
  pub get_feature_config_by_identifier : String → String → Response FeatureConfig
  pub get_segment_by_identifier : String → String → Response Segment
  pub unmarshal : String → Option Message

module _ (c : Cache) (s : Storage) where
  -- `SSEClient`: what it needs to handle events. A nil listener is `none`; of a listener, the events that
  -- were published so far, the latest first. What publishing answers is only logged.
  pub record SseClient : Type 0 where
    pub repository : Repository c s
    pub published : Option (List Event)

  abbrev update_flag : Response FeatureConfig → Repository c s → Run (Repository c s)
  update_flag failed r = ret r
  update_flag not_ok r = ret r
  update_flag (json200 fc) r = set_flag c s fc r

  abbrev update_segment : Response Segment → Repository c s → Run (Repository c s)
  update_segment failed r = ret r
  update_segment not_ok r = ret r
  update_segment (json200 segment) r = set_segment c s segment r

  -- The two switches of `handleEvent`.
  unfoldable pub apply_message : Server → String → Message → Repository c s → Run (Repository c s)
  apply_message server environment msg r =
      if msg.domain == key_feature
      then (if msg.event == sse_delete_event
          then ret (delete_flag c s msg.identifier r)
          else update_flag (server.get_feature_config_by_identifier environment msg.identifier) r)
      else if msg.domain == key_segment
      then (if msg.event == sse_delete_event
          then ret (delete_segment c s msg.identifier r)
          else update_segment (server.get_segment_by_identifier environment msg.identifier) r)
      else ret r

  abbrev pub publish : Option (List Event) → Event → Option (List Event)
  publish none event = none
  publish (some events) event = some (event ∷ events)

  abbrev handle_message : Server → Event → Option Message → SseClient → Run SseClient
  handle_message server event none client = ret client
  handle_message server event (some msg) client =
      apply_message server event.environment msg client.repository >>= λ r.
      ret (record { repository = r; published = publish client.published event })

  -- `handleEvent`
  unfoldable pub handle_event : Server → Event → SseClient → Run SseClient
  unfolding apply_message
  handle_event server event client =
      handle_message server event (server.unmarshal event.message) client

  -- The callback of `subscribe`: an event without data is dropped.
  unfoldable pub received : (api_key environment message : String) → List Event → List Event
  received api_key environment message events =
      if message == ""
      then events
      else record { api_key = api_key; environment = environment; message = message } ∷ events

  -- `Connect`: the events that `orDone` lets through are handled in turn.
  unfoldable pub connect : Server → List Event → SseClient → Run SseClient
  unfolding handle_event
  connect server [] client = ret client
  connect server (event ∷ events) client = do
    client' ← handle_event server event client
    connect server events client'

-- What `orDone` sees in turn: an event of its channel, the end of the channel, or the context's end. At a
-- pending event the context may end before the event is passed on.
pub data Signal : Type 0 where
  arrives : Event → Signal
  lost : Event → Signal
  closed done : Signal

-- `orDone`: the events passed on.
unfoldable pub or_done : List Signal → List Event
or_done [] = []
or_done (arrives event ∷ signals) = event ∷ or_done signals
or_done (lost event ∷ signals) = or_done signals
or_done (closed ∷ signals) = []
or_done (done ∷ signals) = []
