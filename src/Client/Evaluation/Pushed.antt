-- ===== src/Client/Evaluation/Pushed.antt =====
-- What the next `BoolVariation` of client/client.go gives behind an event of stream/sse.go, on a
-- repository without a storage.
use ff_golang_server_sdk.Common.{
  ℕ, String, ◌≡◌, refl, ap, ◌∙◌, Bool, false, Option, none, some, List, [], ◌∷◌, ◌++◌, ◌==◌, eq_iff,
}
use ff_golang_server_sdk.Common.Run.{ret, ok, err}
use ff_golang_server_sdk.Go.{Runtime}
use ff_golang_server_sdk.Go.Text.{lower_is}
use ff_golang_server_sdk.Errors.{feature_config_not_found}
use ff_golang_server_sdk.Rest.{FeatureConfig, Variation, feature_state_on}
use ff_golang_server_sdk.Target.{Target}
use ff_golang_server_sdk.Evaluator.{Query}
use ff_golang_server_sdk.Evaluator.Flag.{find_variation, found_variation, evaluate_flag}
use ff_golang_server_sdk.Evaluator.Variation
use ff_golang_server_sdk.Evaluator.Variation.{evaluate, evaluate_found, typed_variation}
use ff_golang_server_sdk.Analytics.{push_to_queue}
use ff_golang_server_sdk.Client.Evaluation.{Queue, bool_variation, post_evaluate_processor}
use ff_golang_server_sdk.Repository.{
  Cache, Storage, Call, flags, called, on_flag_stored, on_flag_deleted, outdated_by,
}
use ff_golang_server_sdk.Repository.View.{CacheLaws, IsTyped, cached, view, answer}
use ff_golang_server_sdk.Repository.AsQuery.{query_of}
use ff_golang_server_sdk.Stream.{
  Message, Event, Server, json200, handle_event, publish, key_feature, sse_delete_event,
}
use ff_golang_server_sdk.Stream.Updates.{handle_event-update, handle_event-delete}

-- A flag that is off and needs no other.
pub record IsOff (fc : FeatureConfig) (v : Variation) : Type 0 where
  pub boolean : fc.kind ≡ "boolean"
  pub needs_none : fc.prerequisites ≡ none
  pub off : (fc.state == feature_state_on) ≡ false
  pub named : (fc.off_variation == "") ≡ false
  pub found : find_variation fc.variations fc.off_variation ≡ ok v

module _ (rt : Runtime) (depth fuel : ℕ) (q : Query) (target : Option (Target rt.Float)) where
  -- Such a flag gives its off variation, and one event goes into the queue.
  bool_variation-off :
      (key : String) (fc : FeatureConfig) (v : Variation)
      → q.get_flag key ≡ ok fc
      → IsOff fc v
      → (default_value : Bool) (queue : Queue rt)
      → bool_variation rt depth fuel q key target default_value queue
        ≡ ret ((lower_is rt v.value "true", none), queue ++ push_to_queue rt fc target v ∷ [])
  unfolding bool_variation Variation.bool_variation typed_variation evaluate evaluate_found
      evaluate_flag found_variation post_evaluate_processor
  bool_variation-off key fc v got off default_value queue =
      rw got (
        rw (off.boolean)
          (rw (off.needs_none) (rw (off.off) (rw (off.named) (rw (off.found) refl)))))

  -- A flag that is not known gives the default, and no event.
  bool_variation-unknown :
      (key : String)
      → q.get_flag key ≡ err (feature_config_not_found key)
      → (default_value : Bool) (queue : Queue rt)
      → bool_variation rt depth fuel q key target default_value queue
        ≡ ret ((default_value, none), queue)
  unfolding bool_variation Variation.bool_variation typed_variation evaluate
  bool_variation-unknown key got default_value queue = rw got refl

module _ (c : Cache) (s : Storage) (laws : CacheLaws c) (server : Server) (event : Event)
    (msg : Message) (st : c.State) (calls : Option (List Call)) (published : Option (List Event))
    (parsed : server.unmarshal event.message ≡ some msg) (of_flag : msg.domain ≡ key_feature) where
  -- Behind a delete event of a flag whose message parses, on a repository without a storage,
  -- `BoolVariation` on the flag gives the default for every target, with a nil error, and queues no
  -- event for analytics.
  pub handle_event-deleted :
      msg.event ≡ sse_delete_event
      → (st' : c.State) × (handle_event c s server event
            (record { repository = cached c s laws st calls; published = published })
          ≡ ret (record {
            repository = cached c s laws st' (called c s calls (on_flag_deleted msg.identifier));
            published = publish c s published event;
          }))
        × ((rt : Runtime) (depth fuel : ℕ) (target : Option (Target rt.Float))
              (default_value : Bool) (queue : Queue rt)
            → bool_variation rt depth fuel
                (query_of c s laws st')
                msg.identifier
                target
                default_value
                queue
              ≡ ret ((default_value, none), queue))
  handle_event-deleted deletes =
      let (st', handled, views) =
        handle_event-delete c s laws server event msg st calls published parsed of_flag deletes in
      let gone : view c s laws flags st' msg.identifier ≡ none =
        views msg.identifier ∙ rw ((eq_iff msg.identifier msg.identifier).1 refl) refl in
      (
        st',
        handled,
        λ rt depth fuel target.
            bool_variation-unknown rt depth fuel (query_of c s laws st') target msg.identifier
              (ap (answer c s laws flags msg.identifier) gone),
      )

  -- Behind an event of a flag that is no delete event and whose message parses, for which the API gives a
  -- Boolean flag that is off, needs no other flag, has its off variation and is not outdated by what the
  -- repository holds, `BoolVariation` on the flag gives the off variation for every target, with a nil
  -- error, and queues one event of the flag, the target and the variation for analytics. The repository
  -- has no storage and holds only flags under the keys of flags.
  pub handle_event-turned_off :
      (fc : FeatureConfig) (v : Variation)
      → (msg.event == sse_delete_event) ≡ false
      → server.get_feature_config_by_identifier event.environment msg.identifier ≡ json200 fc
      → IsTyped c s laws flags st
      → outdated_by c s flags
          (answer c s laws flags fc.feature (view c s laws flags st fc.feature))
          fc
        ≡ ret false
      → IsOff fc v
      → (st' : c.State) × (handle_event c s server event
            (record { repository = cached c s laws st calls; published = published })
          ≡ ret (record {
            repository = cached c s laws st' (called c s calls (on_flag_stored fc.feature));
            published = publish c s published event;
          }))
        × ((rt : Runtime) (depth fuel : ℕ) (target : Option (Target rt.Float))
              (default_value : Bool) (queue : Queue rt)
            → bool_variation rt depth fuel
                (query_of c s laws st')
                fc.feature
                target
                default_value
                queue
              ≡ ret
                  ((lower_is rt v.value "true", none), queue ++ push_to_queue rt fc target v ∷ []))
  handle_event-turned_off fc v updates fetched typed fresh off =
      let (st', handled, now) =
        handle_event-update c s laws server event msg st calls published parsed of_flag fc updates
          fetched typed fresh in
      (
        st',
        handled,
        λ rt depth fuel target.
            bool_variation-off rt depth fuel (query_of c s laws st') target fc.feature fc v
              (ap (answer c s laws flags fc.feature) now) off,
      )
