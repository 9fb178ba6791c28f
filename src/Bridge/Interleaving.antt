-- ===== src/Bridge/Interleaving.antt =====
-- The goroutines of nats-mq/core/bridge.go and handlers.go that meet at the running lock and the
-- reconnect lock: ConnectorError, checkConnections and the handlers that call it, the goroutine of a
-- timer, and Stop. A goroutine that has passed its check of `running` waits for the reconnect lock as a
-- call; other goroutines may take it first. What runs under one lock is one step.
pub mod Wakeups
pub mod Runs
pub mod Late
pub mod Quiet
use nats_mq.Prelude.{
  ℕ, zero, suc, ◌+◌, ◌<◌, ◌≡◌, Bool, true, false, List, [], ◌∷◌, Option, none, some, length,
  if◌then◌else◌,
}
use nats_mq.Error.{Error}
use nats_mq.Connector.Services.{Services}
use nats_mq.Bridge.Reconnect.{
  Server, remove, shutdown_at, stop_reconnect_timer, keep_for_restart, check_locked, restart_locked,
}
use nats_mq.Bridge.Timers.{waits_for}

-- Where a goroutine stands: in ConnectorError before the reconnect lock; in stanConnectionLost before
-- `bridge.stan = nil`; before the check of `running` in checkConnections; in checkConnections before
-- the reconnect lock; in the goroutine of timer n, which has run out, before the reconnect lock.
pub data Call : Type 0 where
  error_at : ℕ → Call
  stan_lost to_check checking : Call
  restarting : ℕ → Call

-- Where Stop stands: before it cancels the timer, before it clears the map, before it shuts down the
-- connector at a place. It holds the running lock.
pub data Stopping : Type 0 where
  cancels clears : Stopping
  shuts_down : ℕ → Stopping

pub record World : Type 0 where
  pub server : Server
  pub calls : List Call
  pub stopping : Option Stopping

-- The next step of a goroutine: the server after it, and the goroutine if it goes on.
unfoldable pub advance : Services → Option Error → Call → Server → Server × List Call
advance s answer (error_at p) b = (keep_for_restart s p b, [])
advance s answer stan_lost b = (record b { stan = false }, to_check ∷ [])
advance s answer to_check b = (b, if b.running then checking ∷ [] else [])
advance s answer checking b = (check_locked s b, [])
advance s answer (restarting n) b = (restart_locked s answer b, [])

-- A list of calls with one taken out.
pub data Picked (c : Call) : List Call → List Call → Type 0 where
  here : {cs : List Call} → Picked c (c ∷ cs) cs
  there : {d : Call} {cs rest : List Call} → Picked c cs rest → Picked c (d ∷ cs) (d ∷ rest)

abbrev pub resumed : List Call → List Call → List Call
resumed [] rest = rest
resumed (c ∷ cs) rest = c ∷ rest

-- One step, of any goroutine or of the outside.
pub data Step (w : World) : World → Type 0 where
  error_arises :
      (p : ℕ) → w.server.running ≡ true → Step w (record w { calls = error_at p ∷ w.calls })
  nats_goes : w.server.running ≡ true → Step w (record w { calls = to_check ∷ w.calls })
  stan_goes : w.server.running ≡ true → Step w (record w { calls = stan_lost ∷ w.calls })
  timer_ends :
      (n : ℕ)
      → waits_for n w.server.pending ≡ true
      → Step w (record w {
        server = record w.server { pending = remove n w.server.pending };
        calls = restarting n ∷ w.calls;
      })
  goes_on :
      (s : Services) (answer : Option Error) {c : Call} {rest : List Call}
      → Picked c w.calls rest
      → Step w (record w {
        server = (advance s answer c w.server).0;
        calls = resumed (advance s answer c w.server).1 rest;
      })
  stop_begins :
      w.server.running ≡ true
      → w.stopping ≡ none
      → Step w (record w { server = record w.server { running = false }; stopping = some cancels })
  stop_cancels :
      w.stopping ≡ some cancels
      → Step w (record w { server = stop_reconnect_timer w.server; stopping = some clears })
  stop_clears :
      w.stopping ≡ some clears
      → Step w
          (record w { server = record w.server { reconnect = [] }; stopping = some (shuts_down 0) })
  stop_shuts_down :
      (s : Services) (p : ℕ)
      → w.stopping ≡ some (shuts_down p)
      → p < length w.server.connectors
      → Step w (record w {
        server = record w.server { connectors = shutdown_at s p w.server.connectors };
        stopping = some (shuts_down (p + 1));
      })
  stop_ends :
      w.stopping ≡ some (shuts_down (length w.server.connectors))
      → Step w (record w { stopping = none })

-- Any number of steps.
pub data Reach (w : World) : World → Type 0 where
  start : Reach w w
  later : {u v : World} → Reach w u → Step u v → Reach w v

-- A server with no goroutine under way.
abbrev pub at_rest : Server → World
at_rest b = record { server = b; calls = []; stopping = none }
