-- ===== src/Bridge/Interleaving/Runs.antt =====
-- Runs of events of nats-mq/core/bridge.go that each happen at once, as interleavings of goroutines.
use mathlib.Core.List.{append_assoc}
use nats_mq.Prelude.{
  ℕ, suc, ◌+◌, ◌<◌, ◌≡◌, refl, sym, subst, ap, ◌∙◌, true, false, List, [], ◌∷◌, ◌++◌, none, some,
  inl, inr, Bool-cases, length, length-append, arith,
}
use nats_mq.Connector.Services.{Services, Run}
use nats_mq.Connector.Create.{Kind, shutdown}
use nats_mq.Bridge.Reconnect.{
  Server, shutdown_at, shutdown_each, connector_error, check_requirements, nats_disconnected,
  stan_connection_lost, fire, stop_reconnect_timer, stop, Event, connector_fails, timer_fires,
  stops, step, run,
}
use nats_mq.Bridge.Timers.{waits_for}
use nats_mq.Bridge.Interleaving.{
  Call, shuts_down, World, advance, here, error_arises, nats_goes, stan_goes, timer_ends, goes_on,
  stop_begins, stop_cancels, stop_clears, stop_shuts_down, stop_ends, Reach, start, later, at_rest,
}

pub Reach-trans : {w u v : World} → Reach w u → Reach u v → Reach w v
Reach-trans r start = r
Reach-trans r (later q st) = later (Reach-trans r q) st

shutdown_at-append :
    (s : Services) (before : List (Kind × Run)) (k : Kind) (r : Run) (cs : List (Kind × Run))
    → shutdown_at s (length before) (before ++ (k, r) ∷ cs) ≡ before ++ (k, (shutdown k s r).1) ∷ cs
shutdown_at-append s [] k r cs = refl
shutdown_at-append s (c ∷ before) k r cs = ap (λ t. c ∷ t) (shutdown_at-append s before k r cs)

-- Stop in its loop over the connectors, with those before already shut down.
abbrev in_loop : Server → List Call → ℕ → List (Kind × Run) → World
in_loop b calls p cs = record {
  server = record b { connectors = cs };
  calls = calls;
  stopping = some (shuts_down p);
}

shutdown_each-Reach :
    (s : Services) (b : Server) (calls : List Call) (p : ℕ) (before cs : List (Kind × Run))
    → p ≡ length before
    → Reach
        (in_loop b calls p (before ++ cs))
        (in_loop b calls (p + length cs) (before ++ shutdown_each s cs))
shutdown_each-Reach s b calls p before [] h =
    let e : p + 0 ≡ p = omega arith in
    subst (λ m. Reach (in_loop b calls p (before ++ [])) (in_loop b calls m (before ++ []))) (sym e)
      start
shutdown_each-Reach s b calls p before ((k, r) ∷ cs) h =
    let x : Kind × Run = (k, (shutdown k s r).1) in
    let left : p < length (before ++ (k, r) ∷ cs) =
      omega (arith, length-append before ((k, r) ∷ cs)) in
    let e : shutdown_at s p (before ++ (k, r) ∷ cs) ≡ (before ++ x ∷ []) ++ cs =
      rw h (shutdown_at-append s before k r cs) ∙ sym (append_assoc before (x ∷ []) cs) in
    let placed : p + 1 ≡ length (before ++ x ∷ []) =
      omega (arith, length-append before (x ∷ []), h) in
    let rest = shutdown_each-Reach s b calls (p + 1) (before ++ x ∷ []) cs placed in
    let first = later start (stop_shuts_down s p refl left) in
    let n : (p + 1) + length cs ≡ p + suc (length cs) = omega arith in
    let end : (before ++ x ∷ []) ++ shutdown_each s cs ≡ before ++ x ∷ shutdown_each s cs =
      append_assoc before (x ∷ []) (shutdown_each s cs) in
    Reach-trans first (
      subst
        (λ t.
          Reach (in_loop b calls (p + 1) t)
            (in_loop b calls (p + suc (length cs)) (before ++ x ∷ shutdown_each s cs)))
        (sym e)
        (subst
          (λ t.
            Reach (in_loop b calls (p + 1) ((before ++ x ∷ []) ++ cs))
              (in_loop b calls (p + suc (length cs)) t))
          end
          (subst
            (λ m.
              Reach (in_loop b calls (p + 1) ((before ++ x ∷ []) ++ cs))
                (in_loop b calls m ((before ++ x ∷ []) ++ shutdown_each s cs)))
            n rest)))

length-shutdown_each :
    (s : Services) (cs : List (Kind × Run)) → length (shutdown_each s cs) ≡ length cs
length-shutdown_each s [] = refl
length-shutdown_each s ((k, r) ∷ cs) = ap suc (length-shutdown_each s cs)

-- The whole of Stop, while other goroutines stand still.
pub stop-Reach :
    (s : Services) (b : Server) (calls : List Call)
    → b.running ≡ true
    → Reach
        (record { server = b; calls = calls; stopping = none })
        (record { server = stop s b; calls = calls; stopping = none })
unfolding stop
stop-Reach s b calls on =
    let b' = stop_reconnect_timer (record b { running = false }) in
    let cs = b'.connectors in
    let cleared : Reach (record { server = b; calls = calls; stopping = none })
        (in_loop (record b' { reconnect = [] }) calls 0 cs) =
      later (later (later start (stop_begins on refl)) (stop_cancels refl)) (stop_clears refl) in
    let all : 0 + length cs ≡ length (shutdown_each s cs) =
      omega (arith, length-shutdown_each s cs) in
    let looped = shutdown_each-Reach s (record b' { reconnect = [] }) calls 0 [] cs refl in
    let stopped : stop s b ≡ record b' { reconnect = []; connectors = shutdown_each s cs } =
      rw (stop, on) refl in
    subst
      (λ t.
        Reach (record { server = b; calls = calls; stopping = none })
          (record { server = t; calls = calls; stopping = none }))
      (sym stopped)
      (later (Reach-trans cleared looped) (stop_ends (ap (λ n. some (shuts_down n)) all)))

-- An event that can happen: a timer runs out only if a goroutine waits for it.
abbrev pub Possible : Event → Server → Type 0
Possible (timer_fires s answer n) b = waits_for n b.pending ≡ true
Possible e b = Unit

abbrev pub AllPossible : List Event → Server → Type 0
AllPossible [] b = Unit
AllPossible (e ∷ es) b = Possible e b × AllPossible es (step e b)

error-Reach :
    (s : Services) (p : ℕ) (b : Server) → Reach (at_rest b) (at_rest (connector_error s p b))
unfolding connector_error advance
error-Reach s p b = elim (Bool-cases (b.running)) [
  | inl on ↦ rw on (later (later start (error_arises p refl)) (goes_on s none here))
  | inr off ↦ rw off start
]

nats-Reach : (s : Services) (b : Server) → Reach (at_rest b) (at_rest (nats_disconnected s b))
unfolding nats_disconnected check_requirements advance
nats-Reach s b = elim (Bool-cases (b.running)) [
  | inl on ↦
      rw on
        (later (later (later start (nats_goes refl)) (goes_on s none here)) (goes_on s none here))
  | inr off ↦ rw off start
]

stan-Reach : (s : Services) (b : Server) → Reach (at_rest b) (at_rest (stan_connection_lost s b))
unfolding stan_connection_lost check_requirements advance
stan-Reach s b = elim (Bool-cases (b.running)) [
  | inl on ↦ rw on (
      later
        (later (later (later start (stan_goes refl)) (goes_on s none here)) (goes_on s none here))
        (goes_on s none here))
  | inr off ↦ rw off start
]

step-Reach : (e : Event) (b : Server) → Possible e b → Reach (at_rest b) (at_rest (step e b))
unfolding step fire advance
step-Reach (connector_fails s p) b h = error-Reach s p b
step-Reach (Event.nats_goes s) b h = nats-Reach s b
step-Reach (Event.stan_goes s) b h = stan-Reach s b
step-Reach (timer_fires s answer n) b h =
    later (later start (timer_ends n h)) (goes_on s answer here)
step-Reach (stops s) b h = elim (Bool-cases (b.running)) [
  | inl on ↦ stop-Reach s b [] on
  | inr off ↦ unfold stop in rw off start
]

-- Every run in which events happen one after the other, each at once, and timers run out only while
-- a goroutine waits for them, is a run of the goroutines.
pub run-Reach :
    (es : List Event) (b : Server) → AllPossible es b → Reach (at_rest b) (at_rest (run es b))
unfolding run
run-Reach [] b h = start
run-Reach (e ∷ es) b (h, hs) = Reach-trans (step-Reach e b h) (run-Reach es (step e b) hs)
