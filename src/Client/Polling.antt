-- ===== src/Client/Polling.antt =====
-- `pullCronJob`, `retrieve`, `streamConnect` and `IsInitialized` of client/client.go, behind the
-- authentication. The two goroutines of `retrieve` run one after the other here, in either order.
pub mod Looks
pub mod States
pub mod Cron
pub mod Leaving
pub mod Served
use ff_golang_server_sdk.Common.{
  ℕ, zero, suc, Bool, true, false, ◌&&◌, ◌||◌, not, Option, none, some, List, [], ◌∷◌,
  if◌then◌else◌,
}
use ff_golang_server_sdk.Common.Run.{Run, ret, panic, ◌>>=◌, Result, ok, err}
use ff_golang_server_sdk.Go.{Runtime}
use ff_golang_server_sdk.Rest.{FeatureConfig, Segment}
use ff_golang_server_sdk.Repository.{Cache, Storage, Repository, Kind, flags, segments, set_item}
use ff_golang_server_sdk.Stream.{Response, failed, not_ok, json200}
use ff_golang_server_sdk.Client.{ClientError, timeout_waiting_to_initialize, Parts, CfClient}

-- The loop of `IsInitialized`: what each look at `initialized` finds, the first look first.
unfoldable pub look : ℕ → (ℕ → Bool) → Result ClientError Bool
look zero seen = err timeout_waiting_to_initialize
look (suc looks) seen =
    let rest = look looks (λ n. seen (suc n)) in if seen 0 then ok true else rest

-- `IsInitialized`, which looks 30 times
unfoldable pub is_initialized : (ℕ → Bool) → Result ClientError Bool
unfolding look
is_initialized seen = look 30 seen

module _ (c : Cache) (s : Storage) {A : Type 0} (kind : Kind A) where
  unfoldable pub set_all : List A → Repository c s → Run (Repository c s)
  unfolding set_item
  set_all [] r = ret r
  set_all (a ∷ items) r = do r' ← set_item c s kind a r; set_all items r'

  -- `retrieveFlags`, `retrieveSegments`: whether there was no error, and the repository.
  unfoldable pub retrieve_items : Response (List A) → Repository c s → Run (Bool × Repository c s)
  unfolding set_all
  retrieve_items failed r = ret (false, r)
  retrieve_items not_ok r = ret (true, r)
  retrieve_items (json200 items) r = set_all items r >>= λ r'. ret (true, r')

-- What the API gives to one poll.
pub record Answers : Type 0 where
  pub flags_answer : Response (List FeatureConfig)
  pub segments_answer : Response (List Segment)
  pub flags_first : Bool

module _ (rt : Runtime) (parts : Parts) (c : Cache) (s : Storage) where
  unfoldable pub retrieve_flags : Answers → Repository c s → Run (Bool × Repository c s)
  unfolding retrieve_items
  retrieve_flags answers = retrieve_items c s flags answers.flags_answer

  unfoldable pub retrieve_segments : Answers → Repository c s → Run (Bool × Repository c s)
  unfolding retrieve_items
  retrieve_segments answers = retrieve_items c s segments answers.segments_answer

  abbrev pub in_turn :
      (Repository c s → Run (Bool × Repository c s))
      → (Repository c s → Run (Bool × Repository c s))
      → Repository c s
      → Run (Bool × Repository c s)
  in_turn one other r = one r >>= λ x. other x.1 >>= λ y. ret (x.0 && y.0, y.1)

  -- Both retrievals: whether neither had an error, and the repository.
  unfoldable pub retrieve_both : Answers → Repository c s → Run (Bool × Repository c s)
  unfolding retrieve_flags retrieve_segments
  retrieve_both answers r =
      if answers.flags_first
      then in_turn (retrieve_flags answers) (retrieve_segments answers) r
      else in_turn (retrieve_segments answers) (retrieve_flags answers) r

  -- A client without a repository was never started.
  abbrev retrieve_into :
      Option (Repository c s) → Answers → CfClient rt parts c s → Run (Bool × CfClient rt parts c s)
  retrieve_into none answers client = panic
  retrieve_into (some r) answers client = retrieve_both answers r >>= λ x.
      ret (x.0, record client { repository = some x.1; initialized = x.0 || client.initialized })

  -- `retrieve`
  unfoldable pub retrieve : Answers → CfClient rt parts c s → Run (Bool × CfClient rt parts c s)
  unfolding retrieve_both
  retrieve answers client = retrieve_into client.repository answers client

  -- `streamConnect`
  unfoldable pub stream_connect : CfClient rt parts c s → CfClient rt parts c s
  stream_connect client =
      if not client.config.enable_stream || client.stream_connected
      then client
      else record client { stream_connected = true }

  -- `streamErr`
  unfoldable pub stream_err : CfClient rt parts c s → CfClient rt parts c s
  stream_err client = record client { stream_connected = false }

  -- `poll` of `pullCronJob`
  unfoldable pub poll : Answers → CfClient rt parts c s → Run (CfClient rt parts c s)
  unfolding retrieve stream_connect
  poll answers client =
      if not client.stream_connected
      then (retrieve answers client >>= λ x.
          ret (if x.0 && client.config.enable_stream then stream_connect x.1 else x.1))
      else ret client

-- What the loop of `pullCronJob` sees: a tick, with what the API gives then, the end of the stream
-- between two ticks, or a cancelled context.
pub data Turn : Type 0 where
  tick : Answers → Turn
  stream_ended cancelled : Turn

module _ (rt : Runtime) (parts : Parts) (c : Cache) (s : Storage) where
  -- The loop of `pullCronJob`, on the turns that it gets to see
  unfoldable pub cron : List Turn → CfClient rt parts c s → Run (CfClient rt parts c s)
  unfolding poll stream_err
  cron [] client = ret client
  cron (tick answers ∷ turns) client = poll rt parts c s answers client >>= λ x. cron turns x
  cron (stream_ended ∷ turns) client = cron turns (stream_err rt parts c s client)
  cron (cancelled ∷ turns) client = ret client

  -- `pullCronJob`, behind the authentication; `initial` answers the first poll
  unfoldable pub pull_cron_job :
      Answers → List Turn → CfClient rt parts c s → Run (CfClient rt parts c s)
  unfolding cron
  pull_cron_job initial turns client = poll rt parts c s initial client >>= λ x. cron turns x
