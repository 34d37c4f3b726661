-- ===== src/Client/Closing.antt =====
-- `Close` of client/client.go, called once after the other and by two goroutines at once.
use ff_golang_server_sdk.Common.{
  ◌≡◌, refl, Bool, true, false, Option, none, some, List, [], ◌∷◌, if◌then◌else◌,
}
use ff_golang_server_sdk.Common.Run.{Run, ret, panic, ◌>>=◌}
use ff_golang_server_sdk.Go.{Runtime}
use ff_golang_server_sdk.Repository.{Cache, Storage}
use ff_golang_server_sdk.Client.{ClientError, client_already_closed, Parts, CfClient}

module _ (rt : Runtime) (parts : Parts) (c : Cache) (s : Storage) where
  -- `close(c.stop)`: a second close of a channel panics.
  abbrev close_stop : CfClient rt parts c s → Run (CfClient rt parts c s)
  close_stop client = if client.stop then panic else ret (record client { stop = true })

  -- `Close`
  unfoldable pub close : CfClient rt parts c s → Run (Option ClientError × CfClient rt parts c s)
  close client =
      if client.stopped
      then ret (some client_already_closed, client)
      else (close_stop client >>= λ client'. ret (none, record client' { stopped = true }))

  -- Where a goroutine stands in `Close`.
  pub data Place : Type 0 where
    before_check after_check after_close finished : Place

  -- The next atomic action of a goroutine in `Close`.
  unfoldable pub close_step : Place → CfClient rt parts c s → Run (Place × CfClient rt parts c s)
  close_step before_check client = ret (if client.stopped then finished else after_check, client)
  close_step after_check client = close_stop client >>= λ client'. ret (after_close, client')
  close_step after_close client = ret (finished, record client { stopped = true })
  close_step finished client = ret (finished, client)

  -- Two goroutines, scheduled by a list: `true` lets the first act.
  unfoldable pub close_both :
      List Bool
      → Place
      → Place
      → CfClient rt parts c s
      → Run (Place × Place × CfClient rt parts c s)
  unfolding close_step
  close_both [] p q client = ret (p, q, client)
  close_both (true ∷ schedule) p q client =
      close_step p client >>= λ x. close_both schedule x.0 q x.1
  close_both (false ∷ schedule) p q client =
      close_step q client >>= λ x. close_both schedule p x.0 x.1

  -- Of two calls of `Close` in turn on an open client, the first succeeds and stops the client, and the
  -- second gives an error and changes nothing.
  pub close-close :
      (client : CfClient rt parts c s)
      → client.stop ≡ false
      → client.stopped ≡ false
      → (closed : CfClient rt parts c s) × (close client ≡ ret (none, closed))
        × (closed.stop ≡ true)
        × (close closed ≡ ret (some client_already_closed, closed))
  unfolding close
  close-close client unclosed running =
      (record client { stop = true; stopped = true }, rw running (rw unclosed refl), refl, refl)

  -- Two goroutines that both pass the check of `stopped` before either closes the channel make the second
  -- close panic, whichever closes first.
  pub close_both-panic :
      (client : CfClient rt parts c s) (first second : Bool) (rest : List Bool)
      → client.stop ≡ false
      → client.stopped ≡ false
      → close_both
          (true ∷ false ∷ first ∷ (if first then false else true) ∷ rest)
          before_check
          before_check
          client
        ≡ panic
  unfolding close_both
  close_both-panic client true second rest unclosed running = rw running (rw unclosed refl)
  close_both-panic client false second rest unclosed running = rw running (rw unclosed refl)
