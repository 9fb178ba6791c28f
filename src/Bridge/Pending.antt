-- ===== src/Bridge/Pending.antt =====
-- Lists of timers that goroutines wait for, as the bridge server of nats-mq/core/bridge.go has them.
use nats_mq.Prelude.{
  ℕ, ◌+◌, ◌≤◌, ◌≡◌, refl, Bool, true, false, List, [], ◌∷◌, ◌++◌, ltb, ◌==◌, arith, if◌then◌else◌,
}
use nats_mq.Bridge.Reconnect.{remove}
use nats_mq.Bridge.Timers.{waits_for}

-- No timer is listed twice.
abbrev pub all_differ : List ℕ → Bool
all_differ [] = true
all_differ (n ∷ ns) = let rest = all_differ ns in if waits_for n ns then false else rest

-- All are older than the next one.
abbrev pub all_below : ℕ → List ℕ → Bool
all_below m [] = true
all_below m (n ∷ ns) = let rest = all_below m ns in if ltb n m then rest else false

pub waits_for-all_below : (m : ℕ) (ns : List ℕ) → all_below m ns ≡ true → waits_for m ns ≡ false
waits_for-all_below m [] h = refl
waits_for-all_below m (n ∷ ns) h = ground (arith, waits_for-all_below m ns)

pub all_below-later :
    (m k : ℕ) (ns : List ℕ) → m ≤ k → all_below m ns ≡ true → all_below k ns ≡ true
all_below-later m k [] le h = refl
all_below-later m k (n ∷ ns) le h = ground (arith, all_below-later m k ns le)

pub all_below-middle :
    (m n : ℕ) (ms ns : List ℕ) → all_below m (ms ++ n ∷ ns) ≡ true → all_below m (ms ++ ns) ≡ true
all_below-middle m n [] ns h = ground arith
all_below-middle m n (x ∷ ms) ns h = ground (arith, all_below-middle m n ms ns)

waits_for-middle :
    (m n : ℕ) (ms ns : List ℕ)
    → waits_for m (ms ++ n ∷ ns) ≡ (if m == n then true else waits_for m (ms ++ ns))
waits_for-middle m n [] ns = refl
waits_for-middle m n (x ∷ ms) ns = ground (arith, waits_for-middle m n ms ns)

pub all_differ-middle :
    (n : ℕ) (ms ns : List ℕ) → all_differ (ms ++ n ∷ ns) ≡ true → all_differ (ms ++ ns) ≡ true
all_differ-middle n [] ns h = ground arith
all_differ-middle n (x ∷ ms) ns h =
    ground (arith, waits_for-middle x n ms ns, all_differ-middle n ms ns)

remove-absent : (n : ℕ) (ns : List ℕ) → waits_for n ns ≡ false → remove n ns ≡ ns
remove-absent n [] h = refl
remove-absent n (x ∷ ns) h = ground (arith, remove-absent n ns)

-- A timer that is listed once leaves the others when it is taken out.
pub remove-middle :
    (n : ℕ) (ms ns : List ℕ) → all_differ (ms ++ n ∷ ns) ≡ true → remove n (ms ++ n ∷ ns) ≡ ms ++ ns
remove-middle n [] ns h = ground (arith, remove-absent n ns)
remove-middle n (x ∷ ms) ns h = ground (arith, waits_for-middle x n ms ns, remove-middle n ms ns)

-- Two new timers come before the old ones.
pub new-all_differ :
    (m : ℕ) (ns : List ℕ)
    → all_differ ns ≡ true
    → all_below m ns ≡ true
    → all_differ ((m + 1) ∷ m ∷ ns) ≡ true
new-all_differ m ns differ older =
    let older' = all_below-later m (m + 1) ns (omega arith) older in
    ground (arith, waits_for-all_below m ns older, waits_for-all_below (m + 1) ns older')

pub new-all_below :
    (m : ℕ) (ns : List ℕ) → all_below m ns ≡ true → all_below (m + 2) ((m + 1) ∷ m ∷ ns) ≡ true
new-all_below m ns older = ground (arith, all_below-later m (m + 2) ns (omega arith) older)
