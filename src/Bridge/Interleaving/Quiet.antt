-- ===== src/Bridge/Interleaving/Quiet.antt =====
-- What Stop of nats-mq/core/bridge.go does once it has cancelled the timer, and what it leaves.
use nats_mq.Prelude.{
  ℕ, zero, suc, ◌+◌, ◌≡◌, refl, sym, ap, ◌∙◌, subst, true, false, not, ◌&&◌, List, [], ◌∷◌, Option,
  none, some, length, arith, inl, inr, Bool-cases,
}
use nats_mq.Connector.Services.{Services, Run}
use nats_mq.Connector.Create.{Kind, shutdown}
use nats_mq.Connector.Lifecycle.{has}
use nats_mq.Connector.Release.{from_topic, shutdown_releases}
use nats_mq.Bridge.Reconnect.{Server, shutdown_at}
use nats_mq.Bridge.Timers.{waits_for}
use nats_mq.Bridge.Interleaving.{
  Call, Picked, here, there, Stopping, cancels, clears, shuts_down, World, Step, error_arises,
  nats_goes, stan_goes, timer_ends, goes_on, stop_begins, stop_cancels, stop_clears,
  stop_shuts_down, stop_ends, Reach, start, later,
}

early_no_target :
    (k : Kind) (s : Services) (r : Run)
    → from_topic k && not (has r.conn.target) ≡ true
    → (shutdown k s r).1.conn.target ≡ none
unfolding shutdown nats_mq.Connector.Steps.count_disconnect
early_no_target Kind.topic2nats s r early = ground arith
early_no_target Kind.topic2stan s r early = ground arith
early_no_target _ s r early = cc

shutdown-no_target : (k : Kind) (s : Services) (r : Run) → (shutdown k s r).1.conn.target ≡ none
shutdown-no_target k s r = elim (Bool-cases (from_topic k && not (has r.conn.target))) [
  | inr held ↦ (shutdown_releases k s r held).2
  | inl early ↦ early_no_target k s r early
]

-- The first connectors of the list, as many as the number, hold no object.
abbrev pub FirstReleased : ℕ → List (Kind × Run) → Type 0
FirstReleased zero cs = Unit
FirstReleased (suc p) [] = Unit
FirstReleased (suc p) ((k, r) ∷ cs) = (r.conn.target ≡ none) × FirstReleased p cs

FirstReleased-shutdown_at :
    (s : Services) (p : ℕ) (cs : List (Kind × Run))
    → FirstReleased p cs
    → FirstReleased (suc p) (shutdown_at s p cs)
FirstReleased-shutdown_at s zero [] h = tt
FirstReleased-shutdown_at s (suc p) [] h = tt
FirstReleased-shutdown_at s zero ((k, r) ∷ cs) h = (shutdown-no_target k s r, tt)
FirstReleased-shutdown_at s (suc p) ((k, r) ∷ cs) h = (h.0, FirstReleased-shutdown_at s p cs h.1)

-- How far a Stop that has cancelled the timer has come with the server. Without a Stop under way it
-- has done all its work.
abbrev pub Done : Option Stopping → Server → Type 0
Done (some cancels) b = ⊥
Done (some clears) b = Unit
Done (some (shuts_down p)) b = (b.reconnect ≡ []) × FirstReleased p b.connectors
Done none b = (b.reconnect ≡ []) × FirstReleased (length b.connectors) b.connectors

-- The server does not run, no goroutine is under way or sleeps for a timer, there is no current timer,
-- and Stop is as far as this.
pub record IsQuiet (w : World) : Type 0 where
  pub off : w.server.running ≡ false
  pub idle : w.calls ≡ []
  pub none_sleeps : w.server.pending ≡ []
  pub untimed : w.server.reconnect_timer ≡ none
  pub stage : Done w.stopping w.server

no_pick : {c : Call} {cs rest : List Call} → Picked c cs rest → cs ≡ [] → ⊥
no_pick here e = cc
no_pick (there p) e = cc

Step-IsQuiet : {w u : World} → IsQuiet w → Step w u → IsQuiet u
Step-IsQuiet q (error_arises p on) = absurd (let e = q.off in cc)
Step-IsQuiet q (nats_goes on) = absurd (let e = q.off in cc)
Step-IsQuiet q (stan_goes on) = absurd (let e = q.off in cc)
Step-IsQuiet q (timer_ends n sleeps) =
    let e : false ≡ true = ap (waits_for n) (sym q.none_sleeps) ∙ sleeps in absurd cc
Step-IsQuiet q (goes_on s answer pick) = absurd (no_pick pick q.idle)
Step-IsQuiet q (stop_begins on idle) = absurd (let e = q.off in cc)
Step-IsQuiet {w} q (stop_cancels place) = absurd (subst (λ o. Done o w.server) place q.stage)
Step-IsQuiet q (stop_clears place) = record {
  off = q.off;
  idle = q.idle;
  none_sleeps = q.none_sleeps;
  untimed = q.untimed;
  stage = (refl, tt);
}
Step-IsQuiet {w} q (stop_shuts_down s p place left) =
    let (empty, released) = subst (λ o. Done o w.server) place q.stage in
    let next : suc p ≡ p + 1 = omega arith in
    record {
      off = q.off;
      idle = q.idle;
      none_sleeps = q.none_sleeps;
      untimed = q.untimed;
      stage = (
        empty,
        subst (λ n. FirstReleased n (shutdown_at s p w.server.connectors)) next
            (FirstReleased-shutdown_at s p w.server.connectors released),
      );
    }
Step-IsQuiet {w} q (stop_ends place) = record {
  off = q.off;
  idle = q.idle;
  none_sleeps = q.none_sleeps;
  untimed = q.untimed;
  stage = subst (λ o. Done o w.server) place q.stage;
}

Reach-IsQuiet : {w u : World} → IsQuiet w → Reach w u → IsQuiet u
Reach-IsQuiet q start = q
Reach-IsQuiet q (later r st) = Step-IsQuiet (Reach-IsQuiet q r) st

-- Nothing can happen any more to a quiet server without a Stop under way.
quiet_no_Step : {w u : World} → IsQuiet w → w.stopping ≡ none → Step w u → ⊥
quiet_no_Step q ended (error_arises p on) = let e = q.off in cc
quiet_no_Step q ended (nats_goes on) = let e = q.off in cc
quiet_no_Step q ended (stan_goes on) = let e = q.off in cc
quiet_no_Step q ended (timer_ends n sleeps) =
    let e : false ≡ true = ap (waits_for n) (sym q.none_sleeps) ∙ sleeps in cc
quiet_no_Step q ended (goes_on s answer pick) = no_pick pick q.idle
quiet_no_Step q ended (stop_begins on idle) = let e = q.off in cc
quiet_no_Step q ended (stop_cancels place) = cc
quiet_no_Step q ended (stop_clears place) = cc
quiet_no_Step q ended (stop_shuts_down s p place left) = cc
quiet_no_Step q ended (stop_ends place) = cc

-- A world in which Stop has just cancelled the current timer, and no goroutine is under way or sleeps
-- for another timer.
pub record HasCancelled (w : World) : Type 0 where
  pub off : w.server.running ≡ false
  pub idle : w.calls ≡ []
  pub none_sleeps : w.server.pending ≡ []
  pub untimed : w.server.reconnect_timer ≡ none
  pub next : w.stopping ≡ some clears

-- From a world in which Stop has just cancelled the current timer, while no goroutine is under way and
-- none sleeps for another timer, every world that is reached, by whatever steps, and in which no Stop is
-- under way, is of a server that does not run, with no goroutine under way, no sleeping one, no current
-- timer and no connector that waits for a restart; no connector holds its queue or topic, and no step is
-- possible from that world.
pub quiet_stop_is_final :
    {w u : World}
    → HasCancelled w
    → Reach w u
    → u.stopping ≡ none
    → (u.server.running ≡ false)
      × (u.calls ≡ [])
      × (u.server.pending ≡ [])
      × (u.server.reconnect_timer ≡ none)
      × (u.server.reconnect ≡ [])
      × FirstReleased (length u.server.connectors) u.server.connectors
      × ((v : World) → Step u v → ⊥)
quiet_stop_is_final {w} {u} h r ended =
    let q0 : IsQuiet w = record {
      off = h.off;
      idle = h.idle;
      none_sleeps = h.none_sleeps;
      untimed = h.untimed;
      stage = subst (λ o. Done o w.server) (sym h.next) tt;
    } in
    let q = Reach-IsQuiet q0 r in
    let (empty, released) = subst (λ o. Done o u.server) ended q.stage in
    (q.off, q.idle, q.none_sleeps, q.untimed, empty, released, λ v st. quiet_no_Step q ended st)
