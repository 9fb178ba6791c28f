-- ===== src/Bridge/Timers.antt =====
-- Which reconnect timers the bridge server waits for.
use nats_mq.Prelude.{
  not, ℕ, ◌≡◌, Bool, true, false, List, [], ◌∷◌, Option, none, some, arith, ◌==◌, if◌then◌else◌,
}
use nats_mq.Error.{Error}
use nats_mq.Connector.Services.{Services}
use nats_mq.Bridge.Reconnect.{
  Server, ensure_reconnect_timer, new_timer, stop_reconnect_timer, connector_error,
  check_requirements, nats_disconnected, stan_connection_lost, wait_for_nats, wait_for_stan,
  connect_to_stan, restart_all, reconnect_waiting, fire, stop, Event, connector_fails, nats_goes,
  stan_goes, timer_fires, stops, step, run,
}

abbrev pub waits_for : ℕ → List ℕ → Bool
waits_for n [] = false
waits_for n (m ∷ ms) = let rest = waits_for n ms in if n == m then true else rest

abbrev pub is_waited : Option ℕ → List ℕ → Bool
is_waited none ms = true
is_waited (some n) ms = waits_for n ms

abbrev pub is_armed : Option ℕ → Bool
is_armed none = false
is_armed (some n) = true

abbrev pub is_empty {ℓ} : {A : Type ℓ} → List A → Bool
is_empty [] = true
is_empty (x ∷ xs) = false

-- The current timer has a goroutine that waits for it, and a connector that waits for a restart has a
-- current timer.
abbrev pub Armed : Server → Type 0
Armed b =
    (is_waited b.reconnect_timer b.pending ≡ true)
    × (is_empty b.reconnect ≡ false → is_armed b.reconnect_timer ≡ true)

ensure_reconnect_timer-Armed :
    (b : Server) → is_waited b.reconnect_timer b.pending ≡ true → Armed (ensure_reconnect_timer b)
unfolding ensure_reconnect_timer
ensure_reconnect_timer-Armed b h = ground arith

pub reconnect_waiting-Armed : (s : Services) (b : Server) → Armed (reconnect_waiting s b)
unfolding reconnect_waiting ensure_reconnect_timer
reconnect_waiting-Armed s b = ground arith

-- Every event keeps this.
step-Armed : (e : Event) (b : Server) → Armed b → Armed (step e b)
unfolding step
step-Armed (connector_fails s p) b h = unfold connector_error ensure_reconnect_timer in ground arith
step-Armed (nats_goes s) b h =
    unfold nats_disconnected check_requirements ensure_reconnect_timer in ground arith
step-Armed (stan_goes s) b h =
    unfold stan_connection_lost check_requirements ensure_reconnect_timer in ground arith
step-Armed (timer_fires s answer n) b h = unfold fire in reconnect_waiting-Armed s _
step-Armed (stops s) b h = unfold stop stop_reconnect_timer in ground arith

-- Whatever happens to a bridge server, in whatever order: a connector that waits for a restart has a
-- current timer, and the current timer has a goroutine that waits for it, if it was so before.
pub run-Armed : (es : List Event) (b : Server) → Armed b → Armed (run es b)
unfolding run
run-Armed [] b h = h
run-Armed (e ∷ es) b h = run-Armed es (step e b) (step-Armed e b h)

abbrev pub stan_settled : Server → Bool
stan_settled b = if b.stan then true else not b.stan_configured

-- A stopped server whose goroutine for timer n still waits, and which holds no current timer to cancel.
abbrev pub Abandoned : ℕ → Server → Type 0
Abandoned n b =
    (b.running ≡ false)
    × (b.reconnect ≡ [])
    × (b.reconnect_timer ≡ none)
    × (b.pending ≡ n ∷ [])
    × (stan_settled b ≡ true)

fire-Abandoned :
    (s : Services) (answer : Option Error) (n : ℕ) (b : Server)
    → s.check_nats ≡ false
    → Abandoned n b
    → Abandoned b.next_timer (fire s answer n b)
unfolding fire reconnect_waiting wait_for_stan connect_to_stan wait_for_nats new_timer
    ensure_reconnect_timer restart_all
fire-Abandoned s answer n b down h = ground arith

stop-fire-Abandoned :
    (s s' : Services) (answer : Option Error) (n : ℕ) (b : Server)
    → s.check_nats ≡ false
    → b.running ≡ true
    → b.reconnect_timer ≡ some n
    → b.pending ≡ n ∷ []
    → stan_settled b ≡ true
    → Abandoned b.next_timer (stop s' (fire s answer n b))
unfolding fire reconnect_waiting wait_for_stan connect_to_stan wait_for_nats new_timer
    ensure_reconnect_timer stop stop_reconnect_timer
stop-fire-Abandoned s s' answer n b down running timer waits settled = ground arith

-- The first timer that a goroutine waits for runs out, again and again.
abbrev pub fire_rounds : List (Services × Option Error) → Server → Server
fire_rounds [] b = b
fire_rounds ((s, answer) ∷ rounds) b = elim (b.pending) [
  | [] ↦ b
  | n ∷ ns ↦ fire_rounds rounds (fire s answer n b)
]

abbrev pub AllDown : List (Services × Option Error) → Type 0
AllDown [] = Unit
AllDown ((s, answer) ∷ rounds) = (s.check_nats ≡ false) × AllDown rounds

fire_rounds-Abandoned :
    (rounds : List (Services × Option Error)) (n : ℕ) (b : Server)
    → AllDown rounds
    → Abandoned n b
    → (m : ℕ) × Abandoned m (fire_rounds rounds b)
fire_rounds-Abandoned [] n b down h = (n, h)
fire_rounds-Abandoned ((s, answer) ∷ rounds) n b down h =
    let (m, left) =
      fire_rounds-Abandoned rounds b.next_timer (fire s answer n b) down.1
        (fire-Abandoned s answer n b down.0 h) in
    (m, rw (h.3, fire_rounds) left)

-- When the only timer of a running bridge server runs out while NATS is down, and streaming is held or
-- not configured, and the bridge server is then stopped, a goroutine that Stop did not cancel goes on
-- waiting: however often its timer then runs out with NATS down, there is exactly one timer waited for
-- afterwards, and the server, which does not run, has no current timer that could be cancelled.
pub outage_outlives_stop :
    (s s' : Services) (answer : Option Error) (n : ℕ) (b : Server)
    (rounds : List (Services × Option Error))
    → s.check_nats ≡ false
    → b.running ≡ true
    → b.reconnect_timer ≡ some n
    → b.pending ≡ n ∷ []
    → stan_settled b ≡ true
    → AllDown rounds
    → (m : ℕ) × Abandoned m (fire_rounds rounds (stop s' (fire s answer n b)))
outage_outlives_stop s s' answer n b rounds down running timer waits settled all_down =
    fire_rounds-Abandoned rounds b.next_timer (stop s' (fire s answer n b)) all_down
      (stop-fire-Abandoned s s' answer n b down running timer waits settled)
