-- ===== src/Stream/Updates.antt =====
-- stream/sse.go: what an event does to a repository without a storage.
use ff_golang_server_sdk.Common.{
  String, ◌≡◌, ap, false, Option, none, some, List, ◌==◌, if◌then◌else◌,
}
use ff_golang_server_sdk.Common.Run.{Run, ret, ◌>>=◌}
use ff_golang_server_sdk.Rest.{FeatureConfig}
use ff_golang_server_sdk.Repository.{
  Cache, Storage, Call, Repository, flags, set_flag, delete_flag, on_flag_stored, on_flag_deleted,
  called, outdated_by,
}
use ff_golang_server_sdk.Repository.View.{
  CacheLaws, flags-IsKind, cached, view, IsTyped, answer, delete_item-view, set_item-fresh,
}
use ff_golang_server_sdk.Stream.{
  Message, Event, Server, json200, SseClient, handle_event, publish, key_feature, sse_delete_event,
}

module _ (c : Cache) (s : Storage) (laws : CacheLaws c) (server : Server) (event : Event)
    (msg : Message) (st : c.State) (calls : Option (List Call)) (published : Option (List Event))
    (parsed : server.unmarshal event.message ≡ some msg) (of_flag : msg.domain ≡ key_feature) where
  abbrev pub client : SseClient c s
  client = record { repository = cached c s laws st calls; published = published }

  -- A delete event of a flag takes the flag out of the repository, keeps all others, and is published.
  pub handle_event-delete :
      msg.event ≡ sse_delete_event
      → (st' : c.State) × (handle_event c s server event client
          ≡ ret (record {
            repository = cached c s laws st' (called c s calls (on_flag_deleted msg.identifier));
            published = publish c s published event;
          }))
        × ((j : String)
            → view c s laws flags st' j
              ≡ (if msg.identifier == j then none else view c s laws flags st j))
  unfolding handle_event delete_flag
  handle_event-delete deletes =
      let (st', removes, views) =
        delete_item-view c s laws flags flags-IsKind st calls msg.identifier in
      (
        st',
        rw parsed (
            rw of_flag (
              rw deletes (
                ap
                  (λ (r : Repository c s).
                    ret (record { repository = r; published = publish c s published event }))
                  removes))),
        views,
      )

  -- Any other event of a flag fetches the flag, and a fetched flag that is not outdated is the one that
  -- the next read finds; the event is published.
  pub handle_event-update :
      (fc : FeatureConfig)
      → (msg.event == sse_delete_event) ≡ false
      → server.get_feature_config_by_identifier event.environment msg.identifier ≡ json200 fc
      → IsTyped c s laws flags st
      → outdated_by c s flags
          (answer c s laws flags fc.feature (view c s laws flags st fc.feature))
          fc
        ≡ ret false
      → (st' : c.State) × (handle_event c s server event client
          ≡ ret (record {
            repository = cached c s laws st' (called c s calls (on_flag_stored fc.feature));
            published = publish c s published event;
          }))
        × (view c s laws flags st' fc.feature ≡ some fc)
  unfolding handle_event set_flag
  handle_event-update fc updates fetched typed fresh =
      let (st', sets, now, others) =
        set_item-fresh c s laws flags flags-IsKind st calls fc typed fresh in
      (
        st',
        rw parsed (
            rw of_flag (
              rw updates (
                rw fetched (
                  ap
                    (λ (m : Run (Repository c s)). m >>= λ r.
                      ret (record { repository = r; published = publish c s published event }))
                    sets)))),
        now,
      )

-- A message that does not parse changes nothing and is not published.
pub handle_event-malformed :
    (c : Cache) (s : Storage) (server : Server) (event : Event) (client : SseClient c s)
    → server.unmarshal event.message ≡ none
    → handle_event c s server event client ≡ ret client
unfolding handle_event
handle_event-malformed c s server event client e = rw e
