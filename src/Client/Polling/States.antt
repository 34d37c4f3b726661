-- ===== src/Client/Polling/States.antt =====
-- `poll` of client/client.go: what it makes of the client and of the repository.
use ff_golang_server_sdk.Common.{
  ◌≡◌, ◌≢◌, refl, ap, ◌∙◌, Bool, true, false, ◌&&◌, ◌||◌, Option, none, some, List, [], ◌∷◌,
  if◌then◌else◌, All, arith, Bool-cases, inl, inr,
}
use ff_golang_server_sdk.Common.Run.{ret, ◌>>=◌}
use ff_golang_server_sdk.Go.{Runtime}
use ff_golang_server_sdk.Repository.{Cache, Storage, Call, Kind, flags, segments}
use ff_golang_server_sdk.Repository.View.{
  CacheLaws, IsKind, IsTyped, cached, flags-IsKind, segments-IsKind,
}
use ff_golang_server_sdk.Repository.Typed.{
  IsApart, flags-IsApart, segments-IsApart, set_item-IsTyped,
}
use ff_golang_server_sdk.Stream.{Response, failed, not_ok, json200}
use ff_golang_server_sdk.Client.{Parts, CfClient}
use ff_golang_server_sdk.Client.Polling.{
  set_all, retrieve_items, Answers, retrieve_flags, retrieve_segments, in_turn, retrieve_both,
  retrieve, stream_connect, poll,
}

module _ (c : Cache) (s : Storage) (laws : CacheLaws c) where
  -- The repository holds each kind under its own keys.
  pub record IsOrdered (st : c.State) : Type 0 where
    pub flags_typed : IsTyped c s laws flags st
    pub segments_typed : IsTyped c s laws segments st

  -- The items of an answer have their versions.
  abbrev pub HasVersions : {A : Type 0} → Kind A → Response (List A) → Type 0
  HasVersions kind failed = Unit
  HasVersions kind not_ok = Unit
  HasVersions kind (json200 items) = All (λ a. kind.version a ≢ none) items

  -- An answer that is no error.
  abbrev pub succeeded : {A : Type 0} → Response A → Bool
  succeeded failed = false
  succeeded not_ok = true
  succeeded (json200 a) = true

  module _ {A B : Type 0} (kind : Kind A) (other : Kind B) (is_kind : IsKind kind)
      (apart : IsApart kind other) where
    set_all-IsTyped :
        (st : c.State) (calls : Option (List Call)) (items : List A)
        → All (λ a. kind.version a ≢ none) items
        → IsTyped c s laws kind st
        → IsTyped c s laws other st
        → (st' : c.State) × (calls' : Option (List Call)) × (set_all c s kind items
              (cached c s laws st calls)
            ≡ ret (cached c s laws st' calls'))
          × IsTyped c s laws kind st'
          × IsTyped c s laws other st'
    unfolding set_all
    set_all-IsTyped st calls [] versions typed other_typed = (st, calls, refl, typed, other_typed)
    set_all-IsTyped st calls (a ∷ items) versions typed other_typed =
        let (st₁, calls₁, ran, typed₁, other₁) =
          set_item-IsTyped c s laws kind is_kind st a other calls apart versions.0 typed
            other_typed in
        let (st₂, calls₂, ran₂, typed₂, other₂) =
          set_all-IsTyped st₁ calls₁ items versions.1 typed₁ other₁ in
        (st₂, calls₂, ap (λ m. m >>= λ r. set_all c s kind items r) ran ∙ ran₂, typed₂, other₂)

    retrieve_items-IsTyped :
        (st : c.State) (calls : Option (List Call)) (response : Response (List A))
        → HasVersions kind response
        → IsTyped c s laws kind st
        → IsTyped c s laws other st
        → (st' : c.State) × (calls' : Option (List Call)) × (retrieve_items c s kind response
              (cached c s laws st calls)
            ≡ ret (succeeded response, cached c s laws st' calls'))
          × IsTyped c s laws kind st'
          × IsTyped c s laws other st'
    unfolding retrieve_items
    retrieve_items-IsTyped st calls failed versions typed other_typed =
        (st, calls, refl, typed, other_typed)
    retrieve_items-IsTyped st calls not_ok versions typed other_typed =
        (st, calls, refl, typed, other_typed)
    retrieve_items-IsTyped st calls (json200 items) versions typed other_typed =
        let (st', calls', ran, typed', other') =
          set_all-IsTyped st calls items versions typed other_typed in
        (st', calls', ap (λ m. m >>= λ r. ret (true, r)) ran, typed', other')

  module _ (rt : Runtime) (parts : Parts) where
    retrieve_both-IsOrdered :
        (answers : Answers) (st : c.State) (calls : Option (List Call))
        → HasVersions flags answers.flags_answer
        → HasVersions segments answers.segments_answer
        → IsOrdered st
        → (st' : c.State) × (calls' : Option (List Call)) × (retrieve_both rt parts c s answers
              (cached c s laws st calls)
            ≡ ret (
              succeeded answers.flags_answer && succeeded answers.segments_answer,
              cached c s laws st' calls',
            ))
          × IsOrdered st'
    unfolding retrieve_both retrieve_flags retrieve_segments
    retrieve_both-IsOrdered answers st calls flag_versions segment_versions ordered =
        by_order answers.flags_first
      where
        f : Bool
        f = succeeded answers.flags_answer

        g : Bool
        g = succeeded answers.segments_answer

        swap : (a b : Bool) → (b && a) ≡ (a && b)
        swap a b = ground arith

        by_order :
            (b : Bool)
            → (st' : c.State) × (calls' : Option (List Call)) × ((if b
                  then in_turn rt parts c s
                      (retrieve_flags rt parts c s answers)
                      (retrieve_segments rt parts c s answers)
                      (cached c s laws st calls)
                  else in_turn rt parts c s
                      (retrieve_segments rt parts c s answers)
                      (retrieve_flags rt parts c s answers)
                      (cached c s laws st calls))
                ≡ ret (f && g, cached c s laws st' calls'))
              × IsOrdered st'
        by_order true =
            let (st₁, calls₁, ran, typed₁, other₁) =
              retrieve_items-IsTyped flags segments flags-IsKind flags-IsApart st calls
                answers.flags_answer flag_versions ordered.flags_typed ordered.segments_typed in
            let (st₂, calls₂, ran₂, typed₂, other₂) =
              retrieve_items-IsTyped segments flags segments-IsKind segments-IsApart st₁ calls₁
                answers.segments_answer segment_versions other₁ typed₁ in
            (
              st₂,
              calls₂,
              rw ran (rw ran₂ refl),
              record { flags_typed = other₂; segments_typed = typed₂ },
            )
        by_order false =
            let (st₁, calls₁, ran, typed₁, other₁) =
              retrieve_items-IsTyped segments flags segments-IsKind segments-IsApart st calls
                answers.segments_answer segment_versions ordered.segments_typed
                ordered.flags_typed in
            let (st₂, calls₂, ran₂, typed₂, other₂) =
              retrieve_items-IsTyped flags segments flags-IsKind flags-IsApart st₁ calls₁
                answers.flags_answer flag_versions other₁ typed₁ in
            (
              st₂,
              calls₂,
              rw ran (rw ran₂ (rw (swap f g) refl)),
              record { flags_typed = typed₂; segments_typed = other₂ },
            )

    -- The attempt to stream behind a retrieval.
    abbrev attempt : Bool → CfClient rt parts c s → CfClient rt parts c s
    attempt b client =
        if b && client.config.enable_stream then stream_connect rt parts c s client else client

    connected :
        (client : CfClient rt parts c s)
        → client.stream_connected ≡ false
        → (b : Bool)
        → ((attempt b client).repository ≡ client.repository)
          × ((attempt b client).initialized ≡ client.initialized)
          × ((attempt b client).stream_connected ≡ (b && client.config.enable_stream))
    unfolding stream_connect
    connected client polling false = (refl, refl, polling)
    connected client polling true = elim (Bool-cases client.config.enable_stream) [
      | inl e ↦ rw e (rw polling (refl, refl, refl))
      | inr e ↦ rw e (refl, refl, polling)
    ]

    -- A poll of a client that does not stream returns, where every flag and segment of the answers has
    -- a version and the repository has no storage. It leaves the client initialized if it was or if
    -- neither request failed, and streaming if neither failed and streaming is enabled.
    pub poll-IsOrdered :
        (answers : Answers) (client : CfClient rt parts c s) (st : c.State)
        (calls : Option (List Call))
        → client.repository ≡ some (cached c s laws st calls)
        → client.stream_connected ≡ false
        → HasVersions flags answers.flags_answer
        → HasVersions segments answers.segments_answer
        → IsOrdered st
        → (st' : c.State) × (calls' : Option (List Call)) × (client' : CfClient rt parts c s)
          × (poll rt parts c s answers client ≡ ret client')
          × (client'.repository ≡ some (cached c s laws st' calls'))
          × (client'.initialized ≡ (
              (succeeded answers.flags_answer && succeeded answers.segments_answer)
              || client.initialized))
          × (client'.stream_connected ≡ (
              (succeeded answers.flags_answer && succeeded answers.segments_answer)
              && client.config.enable_stream))
          × IsOrdered st'
    unfolding poll retrieve stream_connect
    poll-IsOrdered answers client st calls held polling flag_versions segment_versions ordered =
        let (st', calls', ran, ordered') =
          retrieve_both-IsOrdered answers st calls flag_versions segment_versions ordered in
        (
          st',
          calls',
          final st' calls',
          rw polling (rw held (rw ran refl)),
          (connected (retrieved st' calls') polling answered).0,
          (connected (retrieved st' calls') polling answered).1,
          (connected (retrieved st' calls') polling answered).2,
          ordered',
        )
      where
        answered : Bool
        answered = succeeded answers.flags_answer && succeeded answers.segments_answer

        retrieved : c.State → Option (List Call) → CfClient rt parts c s
        retrieved st' calls' = record client {
          repository = some (cached c s laws st' calls');
          initialized = answered || client.initialized;
        }

        final : c.State → Option (List Call) → CfClient rt parts c s
        final st' calls' = attempt answered (retrieved st' calls')
