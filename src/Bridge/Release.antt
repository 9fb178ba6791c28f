-- ===== src/Bridge/Release.antt =====
-- What a bridge server of nats-mq/core/bridge.go that was started gives back when it is stopped.
use nats_mq.Prelude.{
  ℕ, ◌≡◌, refl, sym, subst, ap, ◌∙◌, true, false, List, [], ◌∷◌, Option, none, some, arith,
  Option-cases, inl, inr,
}
use nats_mq.Error.{Error, Result, ok, err, Result-cases}
use nats_mq.Float.{FloatOps}
use nats_mq.Connector.Services.{Services, Action, disconnected, Run}
use nats_mq.Connector.Create.{Kind, start}
use nats_mq.Connector.Balance.{start_then_shutdown}
use nats_mq.Bridge.Reconnect.{Server, connect_to_stan, stop_reconnect_timer, shutdown_each, stop}
use nats_mq.Bridge.Setup.{
  BridgeServer, StartAnswers, Step, or_return, nats_connected, connect_to_nats, with_core,
  start_connectors, with_started, set_up, then_monitor, then_start_connectors, made_connectors,
  then_initialize, then_connect_to_stan, start_bridge, stop_bridge,
}
use nats_mq.Monitoring.{Monitor, stop_monitoring}

-- The connector holds no queue manager and no object, and the last thing that it did was to
-- disconnect from its queue manager.
pub record IsReleased (r : Run) : Type 0 where
  pub no_qmgr : r.conn.qmgr ≡ none
  pub no_target : r.conn.target ≡ none
  pub last : (q : ℕ) × (rest : List Action) × (r.trace ≡ disconnected q ∷ rest)

pub AllReleased : List (Kind × Run) → Type 0
AllReleased [] = Unit
AllReleased ((k, r) ∷ cs) = IsReleased r × AllReleased cs

or_return_lem :
    (s : Step) (next : BridgeServer → Step) (b' : BridgeServer)
    → or_return s next ≡ (none, b')
    → (b : BridgeServer) × (s ≡ (none, b)) × (next b ≡ (none, b'))
unfolding or_return
or_return_lem (some e, b) next b' h = let impossible : some e ≡ none = ap (λ x. x.0) h in cc
or_return_lem (none, b) next b' h = (b, refl, h)

shutdown_each-AllReleased :
    (s s' : Services) (cs cs' : List (Kind × Run))
    → start_connectors s cs ≡ (none, cs')
    → AllReleased (shutdown_each s' cs')
unfolding start_connectors AllReleased
shutdown_each-AllReleased s s' [] cs' h = subst AllReleased (ap (λ x. shutdown_each s' x.1) h) tt
shutdown_each-AllReleased s s' ((k, r) ∷ cs) cs' h = elim (Result-cases ((start k s r).0)) [
  | inl (x, refused) ↦
      let e : (start_connectors s ((k, r) ∷ cs)).0 ≡ some x = rw (start_connectors, refused) refl in
      let impossible : some x ≡ none = sym e ∙ ap (λ p. p.0) h in cc
  | inr (u, started) ↦
      let rest = start_connectors s cs in
      let e : start_connectors s ((k, r) ∷ cs) ≡ (rest.0, (k, (start k s r).1) ∷ rest.1) =
        rw (start_connectors, started) refl in
      let q : (rest.0, (k, (start k s r).1) ∷ rest.1) ≡ (none, cs') = sym e ∙ h in
      let (no_qmgr, no_target, gone, (m, held, before, last), balanced) =
        start_then_shutdown k s s' r started in
      subst (λ t. AllReleased (shutdown_each s' t)) (ap (λ p. p.1) q)
        ((
          record { no_qmgr = no_qmgr; no_target = no_target; last = (m, before, last) },
          shutdown_each-AllReleased s s' cs rest.1 (ap (λ p. (p.0, rest.1)) q),
        ))
]

-- What a Start without an error leaves.
pub record IsStarted (a : StartAnswers) (b : BridgeServer) : Type 0 where
  pub running : b.core.running ≡ true
  before : List (Kind × Run)
  started : start_connectors a.services before ≡ (none, b.core.connectors)

module _ (f : FloatOps) (a : StartAnswers) (b' : BridgeServer) where
  then_start_connectors-IsStarted :
      (b : BridgeServer)
      → b.core.running ≡ true
      → then_start_connectors f a b ≡ (none, b')
      → IsStarted a b'
  unfolding then_start_connectors then_monitor
  then_start_connectors-IsStarted b on h =
      let (b1, e1, h1) =
        or_return_lem (with_started b (start_connectors a.services b.core.connectors))
          (then_monitor f a) b' h in
      let same : b1.core ≡ b'.core = ap (λ x. x.1.core) h1 in
      record {
        running = ap (λ c. c.running) (sym same) ∙ ap (λ x. x.1.core.running) (sym e1) ∙ on;
        before = b.core.connectors;
        started = ap (λ x. (x.0, x.1.core.connectors)) e1 ∙ ap (λ c. (none, c.connectors)) same;
      }

  nats_connected_lem : (b : BridgeServer) (r : Result ℕ) → (nats_connected b r).1.core ≡ b.core
  nats_connected_lem b (err e) = refl
  nats_connected_lem b (ok nc) = refl

  connect_to_stan_lem :
      (answer : Option Error) (c : Server) → (connect_to_stan answer c).1.running ≡ c.running
  unfolding connect_to_stan
  connect_to_stan_lem answer c = ground arith

  pub start_bridge-IsStarted : (b : BridgeServer) → start_bridge f a b ≡ (none, b') → IsStarted a b'
  unfolding start_bridge then_connect_to_stan then_initialize connect_to_nats
  start_bridge-IsStarted b h =
      let (b1, e1, h1) =
        or_return_lem (connect_to_nats a (set_up b)) (then_connect_to_stan f a) b' h in
      let (b2, e2, h2) =
        or_return_lem (with_core b1 (connect_to_stan a.stan_connect b1.core)) (then_initialize f a)
          b' h1 in
      let (b3, e3, h3) = or_return_lem (made_connectors f a b2) (then_start_connectors f a) b' h2 in
      let on1 : b1.core.running ≡ true =
        sym (ap (λ x. x.1.core.running) e1)
        ∙ ap (λ c. c.running) (nats_connected_lem (set_up b) _) in
      let on2 : b2.core.running ≡ true =
        sym (ap (λ x. x.1.core.running) e2) ∙ connect_to_stan_lem a.stan_connect b1.core ∙ on1 in
      then_start_connectors-IsStarted b3 (sym (ap (λ x. x.1.core.running) e3) ∙ on2) h3

pub stop_reconnect_timer_lem :
    (c : Server)
    → let d = stop_reconnect_timer c in
      (d.running ≡ c.running) × (d.reconnect_timer ≡ none) × (d.connectors ≡ c.connectors)
unfolding stop_reconnect_timer
stop_reconnect_timer_lem c = elim (Option-cases (c.reconnect_timer)) [
  | inl unset ↦ rw unset (refl, refl, refl)
  | inr (n, set) ↦ rw set (refl, refl, refl)
]

stop_monitoring_lem : (m : Monitor) → (stop_monitoring none m).1.http_listener ≡ none
unfolding stop_monitoring
stop_monitoring_lem m = ground arith

-- After a Start that returns no error, a Stop in which the monitoring server shuts down without an
-- error leaves the bridge server not running, with no listener, no current timer, and no connector that
-- waits for a restart; every connector holds no queue manager and no object, and has disconnected from
-- a queue manager as the last thing that it did.
pub stop_bridge-start_bridge :
    (f : FloatOps) (a : StartAnswers) (s : Services) (b b' : BridgeServer)
    → start_bridge f a b ≡ (none, b')
    → let c = stop_bridge s none b' in
      (c.core.running ≡ false)
      × (c.core.reconnect ≡ [])
      × (c.core.reconnect_timer ≡ none)
      × (c.monitor.http_listener ≡ none)
      × AllReleased c.core.connectors
unfolding stop_bridge stop
stop_bridge-start_bridge f a s b b' h =
    let i : IsStarted a b' = start_bridge-IsStarted f a b' b h in
    let (off, no_timer, same) = stop_reconnect_timer_lem (record b'.core { running = false }) in
    rw i.running (
      off,
      refl,
      no_timer,
      stop_monitoring_lem b'.monitor,
      rw same (shutdown_each-AllReleased a.services s i.before b'.core.connectors i.started),
    )
