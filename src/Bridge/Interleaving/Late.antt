-- ===== src/Bridge/Interleaving/Late.antt =====
-- What may still happen after Stop of nats-mq/core/bridge.go.
use nats_mq.Prelude.{
  ℕ, zero, suc, ◌≡◌, refl, ap, ◌∙◌, String, true, false, List, [], ◌∷◌, none, some, arith,
}
use nats_mq.Connector.Services.{Services, Run}
use nats_mq.Connector.Create.{Kind, shutdown}
use nats_mq.Bridge.Reconnect.{
  Server, id_at, shutdown_each, stop_reconnect_timer, ensure_reconnect_timer, keep_for_restart,
  stop,
}
use nats_mq.Bridge.Timers.{waits_for}
use nats_mq.Bridge.Interleaving.{
  error_at, World, advance, here, error_arises, goes_on, Reach, start, later, at_rest,
}
use nats_mq.Bridge.Interleaving.Runs.{Reach-trans, stop-Reach}

shutdown-id :
    (k : Kind) (s : Services) (r : Run) → (shutdown k s r).1.conn.stats.id ≡ r.conn.stats.id
unfolding shutdown nats_mq.Connector.Steps.stop_listener
    nats_mq.Connector.Steps.unsubscribe_not_durable nats_mq.Connector.Steps.unsubscribe
    nats_mq.Connector.Steps.close_target nats_mq.Connector.Steps.close_sub
    nats_mq.Connector.Steps.disconnect nats_mq.Connector.Steps.count_disconnect
    nats_mq.Stats.add_disconnect
shutdown-id Kind.queue2nats s r = ground arith
shutdown-id k s r = ground arith

id_at-shutdown_each :
    (s : Services) (p : ℕ) (cs : List (Kind × Run)) → id_at p (shutdown_each s cs) ≡ id_at p cs
id_at-shutdown_each s p [] = refl
id_at-shutdown_each s zero ((k, r) ∷ cs) = ap some (shutdown-id k s r)
id_at-shutdown_each s (suc p) ((k, r) ∷ cs) = id_at-shutdown_each s p cs

-- A server with an error of the connector at a place under way.
abbrev error_under_way : ℕ → Server → World
error_under_way p b = record { server = b; calls = error_at p ∷ []; stopping = none }

-- A server that does not run, with no goroutine under way, where one connector waits for the restart
-- that the current timer will bring.
pub record IsRevived (id : String) (p : ℕ) (u : World) : Type 0 where
  pub off : u.server.running ≡ false
  pub idle : (u.stopping ≡ none) × (u.calls ≡ [])
  pub kept : u.server.reconnect ≡ (id, p) ∷ []
  pub timer : (n : ℕ) × (u.server.reconnect_timer ≡ some n) × (waits_for n u.server.pending ≡ true)

stop_lem :
    (s : Services) (b : Server)
    → b.running ≡ true
    → ((stop s b).running ≡ false)
      × ((stop s b).reconnect ≡ [])
      × ((stop s b).reconnect_timer ≡ none)
      × ((stop s b).connectors ≡ shutdown_each s b.connectors)
unfolding stop stop_reconnect_timer
stop_lem s b on = ground arith

keep_for_restart-IsRevived :
    (s : Services) (p : ℕ) (id : String) (b : Server)
    → b.running ≡ false
    → b.reconnect ≡ []
    → b.reconnect_timer ≡ none
    → id_at p b.connectors ≡ some id
    → IsRevived id p (at_rest (keep_for_restart s p b))
keep_for_restart-IsRevived s p id b off empty untimed known = record {
  off = unfold ensure_reconnect_timer in ground arith;
  idle = (refl, refl);
  kept = unfold ensure_reconnect_timer in ground arith;
  timer = (
    b.next_timer,
    unfold ensure_reconnect_timer in ground arith,
    unfold ensure_reconnect_timer in ground arith,
  );
}

-- When a connector of a running server reports an error, and Stop runs between the check of `running`
-- in ConnectorError and its lock, the server ends stopped with that connector waiting for a restart
-- and a current timer whose goroutine sleeps.
pub late_error_outlives_stop :
    (s : Services) (p : ℕ) (id : String) (b : Server)
    → b.running ≡ true
    → id_at p b.connectors ≡ some id
    → (u : World) × Reach (at_rest b) u × IsRevived id p u
unfolding advance
late_error_outlives_stop s p id b on known =
    let (off, empty, untimed, shut) = stop_lem s b on in
    let known' : id_at p (stop s b).connectors ≡ some id =
      ap (id_at p) shut ∙ id_at-shutdown_each s p b.connectors ∙ known in
    let raised : Reach (at_rest b) (error_under_way p b) = later start (error_arises p on) in
    let stopped = Reach-trans raised (stop-Reach s b (error_at p ∷ []) on) in
    (
      at_rest (keep_for_restart s p (stop s b)),
      later stopped (goes_on s none here),
      keep_for_restart-IsRevived s p id (stop s b) off empty untimed known',
    )
