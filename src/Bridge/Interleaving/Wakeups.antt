-- ===== src/Bridge/Interleaving/Wakeups.antt =====
-- Who wakes up a connector that waits for a restart, when the goroutines of nats-mq/core/bridge.go
-- interleave.
use nats_mq.Prelude.{
  ℕ, ◌≡◌, refl, ap, Bool, true, false, List, [], ◌∷◌, Option, none, some, inl, inr, Bool-cases,
  arith, ◌==◌, if◌then◌else◌,
}
use nats_mq.Error.{Error}
use nats_mq.Connector.Services.{Services}
use nats_mq.Bridge.Reconnect.{
  Server, remove, ensure_reconnect_timer, stop_reconnect_timer, restart_locked,
}
use nats_mq.Bridge.Timers.{waits_for, is_waited, is_armed, is_empty, Armed, reconnect_waiting-Armed}
use nats_mq.Bridge.Interleaving.{
  Call, error_at, stan_lost, to_check, checking, restarting, Stopping, clears, World, advance,
  Picked, here, there, resumed, Step, error_arises, nats_goes, stan_goes, timer_ends, goes_on,
  stop_begins, stop_cancels, stop_clears, stop_shuts_down, stop_ends, Reach, start, later,
}

-- The goroutine of timer n has woken up and waits for the lock.
abbrev pub restarts : ℕ → Call → Bool
restarts n (restarting m) = n == m
restarts n c = false

abbrev pub has_restart : ℕ → List Call → Bool
has_restart n [] = false
has_restart n (c ∷ cs) = let rest = has_restart n cs in if restarts n c then true else rest

-- The goroutine of the current timer sleeps or has woken up.
abbrev pub is_awaited : Option ℕ → List ℕ → List Call → Bool
is_awaited none pending calls = true
is_awaited (some n) pending calls = if waits_for n pending then true else has_restart n calls

abbrev pub is_clearing : Option Stopping → Bool
is_clearing (some clears) = true
is_clearing s = false

-- The current timer has a goroutine that will come, and a connector that waits for a restart has a
-- current timer, but for the moment between the two steps in which Stop drops both.
pub record IsAwaited (w : World) : Type 0 where
  pub timer : is_awaited w.server.reconnect_timer w.server.pending w.calls ≡ true
  pub waiting :
      is_clearing w.stopping ≡ false
      → is_empty w.server.reconnect ≡ false
      → is_armed w.server.reconnect_timer ≡ true

has_restart-Picked :
    (n : ℕ) {c : Call} {cs rest : List Call}
    → Picked c cs rest
    → has_restart n cs ≡ (if restarts n c then true else has_restart n rest)
has_restart-Picked n here = refl
has_restart-Picked n (there p) = ground (arith, has_restart-Picked n p)

waits_for-remove :
    (n m : ℕ) (ms : List ℕ) → (n == m) ≡ false → waits_for n (remove m ms) ≡ waits_for n ms
waits_for-remove n m [] h = refl
waits_for-remove n m (k ∷ ms) h = ground (arith, waits_for-remove n m ms)

awaited_of_waited :
    (o : Option ℕ) (pending : List ℕ) (calls : List Call)
    → is_waited o pending ≡ true
    → is_awaited o pending calls ≡ true
awaited_of_waited none pending calls h = refl
awaited_of_waited (some n) pending calls h = ground arith

ended_lem :
    (n : ℕ) (o : Option ℕ) (pending : List ℕ) (calls : List Call)
    → is_awaited o pending calls ≡ true
    → is_awaited o (remove n pending) (restarting n ∷ calls) ≡ true
ended_lem n none pending calls h = refl
ended_lem n (some k) pending calls h = ground (arith, waits_for-remove k n pending)

-- The goroutine goes on and leaves the timer and the map as they are.
passed_lem :
    (o : Option ℕ) (pending : List ℕ) {c : Call} {cs rest : List Call}
    → ((n : ℕ) → restarts n c ≡ false)
    → Picked c cs rest
    → is_awaited o pending cs ≡ true
    → is_awaited o pending rest ≡ true
passed_lem none pending other p h = refl
passed_lem (some n) pending other p h = ground (arith, other n, has_restart-Picked n p)

awaited_cons :
    (o : Option ℕ) (pending : List ℕ) (c : Call) (calls : List Call)
    → is_awaited o pending calls ≡ true
    → is_awaited o pending (c ∷ calls) ≡ true
awaited_cons none pending c calls h = refl
awaited_cons (some n) pending c calls h = ground arith

advance-IsAwaited :
    (s : Services) (answer : Option Error) (c : Call) (b : Server) (stopping : Option Stopping)
    {cs rest : List Call}
    → Picked c cs rest
    → is_awaited b.reconnect_timer b.pending cs ≡ true
    → (is_clearing stopping ≡ false
        → is_empty b.reconnect ≡ false
        → is_armed b.reconnect_timer ≡ true)
    → IsAwaited (record {
      server = (advance s answer c b).0;
      calls = resumed (advance s answer c b).1 rest;
      stopping = stopping;
    })
unfolding advance
advance-IsAwaited s answer (error_at p) b stopping pick h k =
    let same = passed_lem b.reconnect_timer b.pending (λ n. refl) pick h in
    record {
      timer = unfold ensure_reconnect_timer in ground (arith, same);
      waiting = λ off more. unfold ensure_reconnect_timer in ground (arith, k off);
    }
advance-IsAwaited s answer stan_lost b stopping {cs} {rest} pick h k =
    let same = passed_lem b.reconnect_timer b.pending (λ n. refl) pick h in
    record { timer = awaited_cons b.reconnect_timer b.pending to_check rest same; waiting = k }
advance-IsAwaited s answer to_check b stopping {cs} {rest} pick h k =
    let same = passed_lem b.reconnect_timer b.pending (λ n. refl) pick h in
    record {
      timer = elim (Bool-cases (b.running)) [
        | inl on ↦ rw on (awaited_cons b.reconnect_timer b.pending checking rest same)
        | inr off ↦ rw off same
      ];
      waiting = k;
    }
advance-IsAwaited s answer checking b stopping pick h k =
    let same = passed_lem b.reconnect_timer b.pending (λ n. refl) pick h in
    record {
      timer = unfold ensure_reconnect_timer in ground (arith, same);
      waiting = λ off more. unfold ensure_reconnect_timer in ground arith;
    }
advance-IsAwaited s answer (restarting n) b stopping {cs} {rest} pick h k =
    let b' = restart_locked s answer b in
    let armed : Armed b' = reconnect_waiting-Armed s _ in
    record {
      timer = awaited_of_waited b'.reconnect_timer b'.pending rest armed.0;
      waiting = λ off. armed.1;
    }

-- Every step keeps it.
Step-IsAwaited : {w u : World} → Step w u → IsAwaited w → IsAwaited u
Step-IsAwaited {w} (error_arises p on) i = record {
  timer = awaited_cons w.server.reconnect_timer w.server.pending (error_at p) w.calls i.timer;
  waiting = i.waiting;
}
Step-IsAwaited {w} (nats_goes on) i = record {
  timer = awaited_cons w.server.reconnect_timer w.server.pending to_check w.calls i.timer;
  waiting = i.waiting;
}
Step-IsAwaited {w} (stan_goes on) i = record {
  timer = awaited_cons w.server.reconnect_timer w.server.pending stan_lost w.calls i.timer;
  waiting = i.waiting;
}
Step-IsAwaited {w} (timer_ends n sleeps) i = record {
  timer = ended_lem n w.server.reconnect_timer w.server.pending w.calls i.timer;
  waiting = i.waiting;
}
Step-IsAwaited {w} (goes_on s answer {c} pick) i =
    advance-IsAwaited s answer c w.server w.stopping pick i.timer i.waiting
Step-IsAwaited (stop_begins on idle) i = record {
  timer = i.timer;
  waiting = λ off. i.waiting (ap is_clearing idle);
}
Step-IsAwaited (stop_cancels place) i = record {
  timer = unfold stop_reconnect_timer in ground arith;
  waiting = λ off. cc;
}
Step-IsAwaited (stop_clears place) i = record { timer = i.timer; waiting = λ off more. cc }
Step-IsAwaited (stop_shuts_down s p place left) i = record {
  timer = i.timer;
  waiting = λ off. i.waiting (ap is_clearing place);
}
Step-IsAwaited (stop_ends place) i = record {
  timer = i.timer;
  waiting = λ off. i.waiting (ap is_clearing place);
}

-- However the goroutines interleave: if it was so at first, the current timer always has a goroutine
-- that sleeps or has woken up for it, and whenever a connector waits for a restart there is a current
-- timer, but between the step in which Stop cancels the timer and the one in which it clears the map.
pub Reach-IsAwaited : {w u : World} → Reach w u → IsAwaited w → IsAwaited u
Reach-IsAwaited start i = i
Reach-IsAwaited (later r st) i = Step-IsAwaited st (Reach-IsAwaited r i)
