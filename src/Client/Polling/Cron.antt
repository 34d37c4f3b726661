-- ===== src/Client/Polling/Cron.antt =====
-- `pullCronJob` of client/client.go: what a run of polls comes to.
use ff_golang_server_sdk.Common.{
  ◌≡◌, refl, Bool, true, Bool-cases, ◌&&◌, ◌||◌, ◌⊎◌, inl, inr, Option, some, List, [], ◌∷◌, arith,
}
use ff_golang_server_sdk.Common.Run.{ret}
use ff_golang_server_sdk.Go.{Runtime}
use ff_golang_server_sdk.Repository.{Cache, Storage, Call, flags, segments}
use ff_golang_server_sdk.Repository.View.{CacheLaws, cached}
use ff_golang_server_sdk.Client.{Parts, CfClient}
use ff_golang_server_sdk.Client.Polling.{
  Answers, Turn, tick, stream_ended, cancelled, stream_err, poll, cron, pull_cron_job,
}
use ff_golang_server_sdk.Client.Polling.States.{IsOrdered, HasVersions, succeeded, poll-IsOrdered}

module _ (c : Cache) (s : Storage) (laws : CacheLaws c) where
  -- Neither request of the poll failed.
  abbrev pub Succeeds : Answers → Type 0
  Succeeds a = (succeeded c s laws a.flags_answer && succeeded c s laws a.segments_answer) ≡ true

  -- The flags and segments of the answers have their versions.
  abbrev pub IsVersioned : Answers → Type 0
  IsVersioned a =
      HasVersions c s laws flags a.flags_answer × HasVersions c s laws segments a.segments_answer

  -- So do those of every tick.
  abbrev pub AllVersioned : List Turn → Type 0
  AllVersioned [] = Unit
  AllVersioned (tick a ∷ turns) = IsVersioned a × AllVersioned turns
  AllVersioned (stream_ended ∷ turns) = AllVersioned turns
  AllVersioned (cancelled ∷ turns) = Unit

  -- Before the context is cancelled, a tick comes at which neither request fails.
  abbrev pub Lands : List Turn → Type 0
  Lands [] = ⊥
  Lands (tick a ∷ turns) = Succeeds a ⊎ Lands turns
  Lands (stream_ended ∷ turns) = Lands turns
  Lands (cancelled ∷ turns) = ⊥

  module _ (rt : Runtime) (parts : Parts) where
    -- A client behind `NewCfClient`: it has a repository, and streams only when it is initialized.
    pub record IsRunning (client : CfClient rt parts c s) : Type 0 where
      pub state : c.State
      pub calls : Option (List Call)
      pub held : client.repository ≡ some (cached c s laws state calls)
      pub ordered : IsOrdered c s laws state
      pub streams : client.stream_connected ≡ true → client.initialized ≡ true

    abbrev Polled : Answers → CfClient rt parts c s → Type 0
    Polled a client =
        (client' : CfClient rt parts c s) × (poll rt parts c s a client ≡ ret client')
        × IsRunning client'
        × ((client.initialized ≡ true) ⊎ Succeeds a → client'.initialized ≡ true)

    -- The tests of a poll: streaming wants an answer, and an answer initializes.
    streams_initialized :
        (a e i : Bool) {o j : Bool} → j ≡ (a || i) → o ≡ (a && e) → o ≡ true → j ≡ true
    streams_initialized a e i p q h = ground (arith, p, q, h)

    answers_initialize : (a i : Bool) {j : Bool} → j ≡ (a || i) → (i ≡ true) ⊎ (a ≡ true) → j ≡ true
    answers_initialize a i p (inl h) = ground (arith, p, h)
    answers_initialize a i p (inr h) = ground (arith, p, h)

    poll-IsRunning :
        (a : Answers) (client : CfClient rt parts c s)
        → IsVersioned a
        → IsRunning client
        → Polled a client
    unfolding poll
    poll-IsRunning a client versions running = elim (Bool-cases client.stream_connected) [
      | inl e ↦ (client, rw e refl, running, λ h. running.streams e)
      | inr e ↦
          let (st', calls', client', ran, held', init', stream', ordered') =
            poll-IsOrdered c s laws rt parts a client (running.state) (running.calls) (running.held)
              e versions.0 versions.1 (running.ordered) in
          (
            client',
            ran,
            record {
              state = st';
              calls = calls';
              held = held';
              ordered = ordered';
              streams =
                  streams_initialized
                    (succeeded c s laws a.flags_answer && succeeded c s laws a.segments_answer)
                    client.config.enable_stream client.initialized init' stream';
            },
            answers_initialize
                (succeeded c s laws a.flags_answer && succeeded c s laws a.segments_answer)
                client.initialized init',
          )
    ]

    ended :
        (client : CfClient rt parts c s)
        → IsRunning client
        → IsRunning (stream_err rt parts c s client)
    unfolding stream_err
    ended client running = record {
      state = running.state;
      calls = running.calls;
      held = running.held;
      ordered = running.ordered;
      streams = λ h. cc h;
    }

    -- What is left of the hope for a poll behind a tick.
    after :
        (a : Answers) (turns : List Turn) (client client' : CfClient rt parts c s)
        → ((client.initialized ≡ true) ⊎ Succeeds a → client'.initialized ≡ true)
        → (client.initialized ≡ true) ⊎ Lands (tick a ∷ turns)
        → (client'.initialized ≡ true) ⊎ Lands turns
    after a turns client client' kept (inl i) = inl (kept (inl i))
    after a turns client client' kept (inr (inl p)) = inl (kept (inr p))
    after a turns client client' kept (inr (inr l)) = inr l

    -- The run goes on from a client that was initialized, or comes by a poll that succeeds.
    cron-initialized :
        (turns : List Turn) (client : CfClient rt parts c s)
        → AllVersioned turns
        → IsRunning client
        → (client.initialized ≡ true) ⊎ Lands turns
        → (client' : CfClient rt parts c s) × (cron rt parts c s turns client ≡ ret client')
          × IsRunning client'
          × (client'.initialized ≡ true)
    unfolding cron stream_err
    cron-initialized [] client versions running (inl i) = (client, refl, running, i)
    cron-initialized [] client versions running (inr l) = absurd l
    cron-initialized (tick a ∷ turns) client versions running h =
        let (client', ran, running', kept) = poll-IsRunning a client versions.0 running in
        let (last, ran', running'', done) =
          cron-initialized turns client' versions.1 running'
            (after a turns client client' kept h) in
        (last, rw ran ran', running'', done)
    cron-initialized (stream_ended ∷ turns) client versions running h =
        cron-initialized turns (stream_err rt parts c s client) versions (ended client running) h
    cron-initialized (cancelled ∷ turns) client versions running (inl i) =
        (client, refl, running, i)
    cron-initialized (cancelled ∷ turns) client versions running (inr l) = absurd l

    -- `pullCronJob` on a client that streams only when it is initialized, whose repository has no storage
    -- and holds each kind under its own keys, and whose flags and segments have their versions in every
    -- answer, returns an initialized client, whatever polls fail and however often the stream ends, as
    -- soon as neither request of one poll before the cancellation fails.
    pub pull_cron_job-initialized :
        (initial : Answers) (turns : List Turn) (client : CfClient rt parts c s)
        → IsRunning client
        → AllVersioned (tick initial ∷ turns)
        → Lands (tick initial ∷ turns)
        → (client' : CfClient rt parts c s) × (pull_cron_job rt parts c s initial turns client
            ≡ ret client')
          × IsRunning client'
          × (client'.initialized ≡ true)
    unfolding pull_cron_job cron
    pull_cron_job-initialized initial turns client running versions lands =
        cron-initialized (tick initial ∷ turns) client versions running (inr lands)
