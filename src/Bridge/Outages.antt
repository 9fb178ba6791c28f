-- ===== src/Bridge/Outages.antt =====
-- What the reconnect goroutine of nats-mq/core/bridge.go does to the timers while NATS is down.
use native.Mathlib.Nat.{pow-suc, mul_assoc}
use nats_mq.Prelude.{
  ℕ, zero, suc, ◌+◌, ◌*◌, ◌^◌, ◌≡◌, refl, sym, ap, ◌∙◌, String, Bool, true, false, List, [], ◌∷◌,
  ◌++◌, Option, inl, inr, Bool-cases, length, length-append, arith, if◌then◌else◌,
}
use nats_mq.Error.{Error, requires_nats, err}
use nats_mq.Connector.Services.{Services, Run}
use nats_mq.Connector.Create.{Kind, queue2nats, nats2queue, nats2topic, topic2nats, start}
use nats_mq.Bridge.Reconnect.{
  Server, remove, start_at, restart_all, fire, reconnect_waiting, wait_for_stan, connect_to_stan,
  wait_for_nats, new_timer, ensure_reconnect_timer,
}
use nats_mq.Bridge.Timers.{stan_settled, AllDown}
use nats_mq.Bridge.Pending.{
  all_differ, all_below, all_differ-middle, all_below-middle, remove-middle, new-all_differ,
  new-all_below,
}

-- A connector that has NATS, not a streaming channel, on one side.
abbrev pub needs_nats : Kind → Bool
needs_nats queue2nats = true
needs_nats nats2queue = true
needs_nats nats2topic = true
needs_nats topic2nats = true
needs_nats k = false

abbrev pub needs_nats_at : ℕ → List (Kind × Run) → Bool
needs_nats_at p [] = false
needs_nats_at zero ((k, r) ∷ cs) = needs_nats k
needs_nats_at (suc p) (c ∷ cs) = needs_nats_at p cs

-- Some connector that waits for a restart needs NATS.
abbrev pub some_need_nats : List (String × ℕ) → List (Kind × Run) → Bool
some_need_nats [] cs = false
some_need_nats ((id, p) ∷ waiting) cs =
    let rest = some_need_nats waiting cs in if needs_nats_at p cs then true else rest

start-needs_nats :
    (k : Kind) (s : Services) (r : Run)
    → s.check_nats ≡ false
    → needs_nats k ≡ true
    → (start k s r).0 ≡ err (requires_nats r.conn.stats.name)
unfolding start nats_mq.Connector.Kinds.require_nats
start-needs_nats queue2nats s r down h = ground arith
start-needs_nats nats2queue s r down h = ground arith
start-needs_nats nats2topic s r down h = ground arith
start-needs_nats topic2nats s r down h = ground arith
start-needs_nats k s r down h = cc

start_at-needs_nats :
    (s : Services) (p : ℕ) (cs : List (Kind × Run))
    → s.check_nats ≡ false
    → needs_nats_at p cs ≡ true
    → (start_at s p cs).0 ≡ false
start_at-needs_nats s p [] down h = refl
start_at-needs_nats s zero ((k, r) ∷ cs) down h = ground (arith, start-needs_nats k s r down h)
start_at-needs_nats s (suc p) (c ∷ cs) down h = start_at-needs_nats s p cs down h

-- Starting connectors changes no kind.
needs_nats_at-start_at :
    (s : Services) (p q : ℕ) (cs : List (Kind × Run))
    → needs_nats_at q (start_at s p cs).1 ≡ needs_nats_at q cs
needs_nats_at-start_at s p q [] = refl
needs_nats_at-start_at s zero zero (c ∷ cs) = refl
needs_nats_at-start_at s zero (suc q) (c ∷ cs) = refl
needs_nats_at-start_at s (suc p) zero (c ∷ cs) = refl
needs_nats_at-start_at s (suc p) (suc q) (c ∷ cs) = needs_nats_at-start_at s p q cs

needs_nats_at-restart_all :
    (s : Services) (q : ℕ) (waiting : List (String × ℕ)) (cs : List (Kind × Run))
    → needs_nats_at q (restart_all s waiting cs).1 ≡ needs_nats_at q cs
unfolding restart_all
needs_nats_at-restart_all s q [] cs = refl
needs_nats_at-restart_all s q ((id, p) ∷ waiting) cs =
    needs_nats_at-restart_all s q waiting (start_at s p cs).1 ∙ needs_nats_at-start_at s p q cs

some_need_nats-start_at :
    (s : Services) (p : ℕ) (waiting : List (String × ℕ)) (cs : List (Kind × Run))
    → some_need_nats waiting (start_at s p cs).1 ≡ some_need_nats waiting cs
some_need_nats-start_at s p [] cs = refl
some_need_nats-start_at s p ((id, q) ∷ waiting) cs =
    rw (needs_nats_at-start_at s p q cs, some_need_nats-start_at s p waiting cs) refl

-- With NATS down, one of those that need it is left over.
restart_all-some_need_nats :
    (s : Services) (waiting : List (String × ℕ)) (cs : List (Kind × Run))
    → s.check_nats ≡ false
    → some_need_nats waiting cs ≡ true
    → let (left, all) = restart_all s waiting cs in some_need_nats left all ≡ true
unfolding restart_all
restart_all-some_need_nats s [] cs down h = h
restart_all-some_need_nats s ((id, p) ∷ waiting) cs down h =
    elim (Bool-cases (needs_nats_at p cs)) [
      | inl this ↦ ground (
        arith,
        start_at-needs_nats s p cs down this,
        needs_nats_at-start_at s p p cs,
        needs_nats_at-restart_all s p waiting (start_at s p cs).1,
      )
      | inr other ↦ ground (
        arith,
        some_need_nats-start_at s p waiting cs,
        restart_all-some_need_nats s waiting (start_at s p cs).1 down,
      )
    ]

-- A server during an outage of NATS: streaming is held or not configured, a connector that needs NATS
-- waits for a restart, and the timers that goroutines wait for are different and older than the next.
pub record IsWaiting (b : Server) : Type 0 where
  pub settled : stan_settled b ≡ true
  pub stuck : some_need_nats b.reconnect b.connectors ≡ true
  pub differ : all_differ b.pending ≡ true
  pub older : all_below b.next_timer b.pending ≡ true

fire-pending :
    (s : Services) (answer : Option Error) (n : ℕ) (b : Server)
    → s.check_nats ≡ false
    → stan_settled b ≡ true
    → some_need_nats b.reconnect b.connectors ≡ true
    → let b' = fire s answer n b in
      (b'.pending ≡ (b.next_timer + 1) ∷ b.next_timer ∷ remove n b.pending)
      × (b'.next_timer ≡ b.next_timer + 2)
      × (stan_settled b' ≡ true)
      × (some_need_nats b'.reconnect b'.connectors ≡ true)
unfolding fire reconnect_waiting wait_for_stan connect_to_stan wait_for_nats new_timer
    ensure_reconnect_timer
fire-pending s answer n b down settled stuck =
    ground (arith, restart_all-some_need_nats s b.reconnect b.connectors down stuck)

-- One of the timers runs out: its goroutine leaves two.
fire-IsWaiting :
    (s : Services) (answer : Option Error) (n : ℕ) (ms ns : List ℕ) (b : Server)
    → s.check_nats ≡ false
    → IsWaiting b
    → b.pending ≡ ms ++ n ∷ ns
    → let b' = fire s answer n b in
      IsWaiting b' × (b'.pending ≡ ((b.next_timer + 1) ∷ b.next_timer ∷ ms) ++ ns)
fire-IsWaiting s answer n ms ns b down w e =
    let t = b.next_timer in
    let b' = fire s answer n b in
    let (pending, next, settled, stuck) = fire-pending s answer n b down w.settled w.stuck in
    let differ : all_differ (ms ++ n ∷ ns) ≡ true = ap all_differ (sym e) ∙ w.differ in
    let older : all_below t (ms ++ n ∷ ns) ≡ true = ap (all_below t) (sym e) ∙ w.older in
    let older' = all_below-middle t n ms ns older in
    let left : (fire s answer n b).pending ≡ ((t + 1) ∷ t ∷ ms) ++ ns =
      rw (pending, e, remove-middle n ms ns differ) refl in
    (
      record {
        settled = settled;
        stuck = stuck;
        differ = rw (left) (new-all_differ t (ms ++ ns) (all_differ-middle n ms ns differ) older');
        older =
            ap (all_below b'.next_timer) left
            ∙ ap (λ m. all_below m ((t + 1) ∷ t ∷ (ms ++ ns))) next
            ∙ new-all_below t (ms ++ ns) older';
      },
      left,
    )

-- The timers of a list run out, one after the other.
abbrev pub fire_each : Services → Option Error → List ℕ → Server → Server
fire_each s answer [] b = b
fire_each s answer (n ∷ ns) b = fire_each s answer ns (fire s answer n b)

fire_each-IsWaiting :
    (s : Services) (answer : Option Error) (ms ns : List ℕ) (b : Server)
    → s.check_nats ≡ false
    → IsWaiting b
    → b.pending ≡ ms ++ ns
    → let b' = fire_each s answer ns b in
      IsWaiting b' × (length b'.pending ≡ length ms + 2 * length ns)
fire_each-IsWaiting s answer ms [] b down w e =
    let h : length (ms ++ []) ≡ length ms + 0 = length-append ms [] in (w, rw e (omega (arith, h)))
fire_each-IsWaiting s answer ms (n ∷ ns) b down w e =
    let (w', e') = fire-IsWaiting s answer n ms ns b down w e in
    let ms' = (b.next_timer + 1) ∷ b.next_timer ∷ ms in
    let (after, count) = fire_each-IsWaiting s answer ms' ns (fire s answer n b) down w' e' in
    (after, omega (arith, count))

doubled : (k : ℕ) (m n : ℕ) → m ≡ 2 * n → 2 ^ k * m ≡ 2 ^ suc k * n
doubled k m n h = rw (h, pow-suc 2 k) (sym (mul_assoc (2 ^ k) 2 n))

-- In each interval every timer that a goroutine waits for runs out.
abbrev pub intervals : List (Services × Option Error) → Server → Server
intervals [] b = b
intervals ((s, answer) ∷ rounds) b = intervals rounds (fire_each s answer b.pending b)

-- While NATS is down, streaming is held or not configured, and a connector that needs NATS waits for a
-- restart, the number of reconnect timers doubles with each interval in which all of them run out.
pub outage_doubles_timers :
    (rounds : List (Services × Option Error)) (b : Server)
    → AllDown rounds
    → IsWaiting b
    → length (intervals rounds b).pending ≡ 2 ^ length rounds * length b.pending
outage_doubles_timers [] b down w = omega arith
outage_doubles_timers ((s, answer) ∷ rounds) b down w =
    let (w', count) = fire_each-IsWaiting s answer [] b.pending b down.0 w refl in
    let rest = outage_doubles_timers rounds (fire_each s answer b.pending b) down.1 w' in
    rest ∙ doubled (length rounds) _ _ (count ∙ omega arith)
