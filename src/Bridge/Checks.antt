-- ===== src/Bridge/Checks.antt =====
-- What checkConnections of nats-mq/core/bridge.go does to each connector when NATS is disconnected.
use nats_mq.Prelude.{
  ℕ, ◌+◌, ◌≡◌, ◌≢◌, refl, sym, ◌∙◌, subst, String, true, false, List, [], ◌∷◌, some, arith, str_eq,
  eq_iff, eq_refl,
}
use nats_mq.Prelude.Dict.{lookup}
use nats_mq.Error.{ok}
use nats_mq.Connector.Services.{Services, Run}
use nats_mq.Connector.Create.{Kind, shutdown, check_connections}
use nats_mq.Bridge.Reconnect.{
  Server, contains, check_one, check_all, ensure_reconnect_timer, check_requirements,
  nats_disconnected,
}
use nats_mq.Bridge.Timers.{is_armed}

-- No connector of the list has the ID.
abbrev pub IsUnused : String → List (Kind × Run) → Type 0
IsUnused id [] = Unit
IsUnused id ((k, r) ∷ cs) = (str_eq id r.conn.stats.id ≡ false) × IsUnused id cs

-- The connectors have different IDs.
abbrev pub AreDistinct : List (Kind × Run) → Type 0
AreDistinct [] = Unit
AreDistinct ((k, r) ∷ cs) = IsUnused r.conn.stats.id cs × AreDistinct cs

-- What becomes of the connector at a place, whose check is made where it does not wait already.
abbrev pub Became : Services → List (String × ℕ) → List (String × ℕ) → ℕ → Kind → Run → Run → Type 0
Became s before after p k r r' =
    let id = r.conn.stats.id in
    let (answer, checked) = check_connections k s r in
    (contains id before ≡ true → r' ≡ r)
    × (contains id before ≡ false → answer ≡ ok tt → (r' ≡ checked) × (contains id after ≡ false))
    × (contains id before ≡ false
        → answer ≢ ok tt
        → (r' ≡ (shutdown k s checked).1) × (lookup id after ≡ some p))

-- What becomes of the connectors, the first of which has this place.
abbrev pub AllBecame :
    Services
    → List (String × ℕ)
    → List (String × ℕ)
    → ℕ
    → List (Kind × Run)
    → List (Kind × Run)
    → Type 0
AllBecame s before after p [] [] = Unit
AllBecame s before after p ((k, r) ∷ cs) ((j, r') ∷ cs') =
    (j ≡ k) × Became s before after p k r r' × AllBecame s before after (p + 1) cs cs'
AllBecame s before after p _ _ = ⊥

-- Two maps hold the IDs of the same connectors of the list.
abbrev Agree : List (String × ℕ) → List (String × ℕ) → List (Kind × Run) → Type 0
Agree before now [] = Unit
Agree before now ((k, r) ∷ cs) =
    (contains r.conn.stats.id now ≡ contains r.conn.stats.id before) × Agree before now cs

Agree-refl : (w : List (String × ℕ)) (cs : List (Kind × Run)) → Agree w w cs
Agree-refl w [] = tt
Agree-refl w ((k, r) ∷ cs) = (refl, Agree-refl w cs)

module _ (s : Services) (k : Kind) (r : Run) (p : ℕ) (w : List (String × ℕ)) where
  -- A check changes nothing for other IDs.
  check_one-other :
      (id : String)
      → str_eq r.conn.stats.id id ≡ false
      → (lookup id (check_one s k r p w).1 ≡ lookup id w)
        × (contains id (check_one s k r p w).1 ≡ contains id w)
  unfolding lookup
  check_one-other id other = ground arith

  Agree-check_one :
      (before : List (String × ℕ)) (cs : List (Kind × Run))
      → IsUnused r.conn.stats.id cs
      → Agree before w cs
      → Agree before (check_one s k r p w).1 cs
  Agree-check_one before [] unused h = tt
  Agree-check_one before ((j, q) ∷ cs) unused h =
      ((check_one-other q.conn.stats.id unused.0).1 ∙ h.0, Agree-check_one before cs unused.1 h.1)

check_all-other :
    (s : Services) (p : ℕ) (cs : List (Kind × Run)) (w : List (String × ℕ)) (id : String)
    → IsUnused id cs
    → (lookup id (check_all s p cs w).1 ≡ lookup id w)
      × (contains id (check_all s p cs w).1 ≡ contains id w)
unfolding check_all
check_all-other s p [] w id unused = (refl, refl)
check_all-other s p ((k, r) ∷ cs) w id unused =
    let other : str_eq r.conn.stats.id id ≡ false =
      ground (arith, eq_iff id r.conn.stats.id, eq_iff r.conn.stats.id id, unused.0) in
    let one = check_one-other s k r p w id other in
    let rest = check_all-other s (p + 1) cs (check_one s k r p w).1 id unused.1 in
    (rest.0 ∙ one.0, rest.1 ∙ one.1)

check_one-Became :
    (s : Services) (k : Kind) (r : Run) (p : ℕ) (before w after : List (String × ℕ))
    → contains r.conn.stats.id w ≡ contains r.conn.stats.id before
    → lookup r.conn.stats.id after ≡ lookup r.conn.stats.id (check_one s k r p w).1
    → contains r.conn.stats.id after ≡ contains r.conn.stats.id (check_one s k r p w).1
    → Became s before after p k r (check_one s k r p w).0
unfolding lookup
check_one-Became s k r p before w after agree e e' = (
  (λ held. ground arith),
  (λ free fine. ground arith),
  (λ free fails. ground (arith, eq_refl r.conn.stats.id)),
)

check_all-AllBecame :
    (s : Services) (before : List (String × ℕ)) (p : ℕ) (cs : List (Kind × Run))
    (w : List (String × ℕ))
    → AreDistinct cs
    → Agree before w cs
    → let (cs', after) = check_all s p cs w in AllBecame s before after p cs cs'
unfolding check_all
check_all-AllBecame s before p [] w distinct h = tt
check_all-AllBecame s before p ((k, r) ∷ cs) w distinct h =
    let w' = (check_one s k r p w).1 in
    let kept = check_all-other s (p + 1) cs w' r.conn.stats.id distinct.0 in
    (
      refl,
      check_one-Became s k r p before w (check_all s (p + 1) cs w').1 h.0 kept.0 kept.1,
      check_all-AllBecame s before (p + 1) cs w' distinct.1
          (Agree-check_one s k r p w before cs distinct.0 h.1),
    )

-- An entry that is in the map keeps its place.
check_one-held :
    (s : Services) (k : Kind) (r : Run) (p : ℕ) (w : List (String × ℕ)) (id : String)
    → contains id w ≡ true
    → (lookup id (check_one s k r p w).1 ≡ lookup id w)
      × (contains id (check_one s k r p w).1 ≡ true)
unfolding lookup
check_one-held s k r p w id h = ground (arith, eq_iff r.conn.stats.id id)

check_all-held :
    (s : Services) (p : ℕ) (cs : List (Kind × Run)) (w : List (String × ℕ)) (id : String)
    → contains id w ≡ true
    → lookup id (check_all s p cs w).1 ≡ lookup id w
unfolding check_all
check_all-held s p [] w id h = refl
check_all-held s p ((k, r) ∷ cs) w id h =
    let one = check_one-held s k r p w id h in
    check_all-held s (p + 1) cs (check_one s k r p w).1 id one.1 ∙ one.0

-- When NATS is disconnected while the bridge server runs, and its connectors have different IDs: a
-- connector that waits for a restart is left as it is, and its entry keeps its place; of the others,
-- each whose CheckConnections returns no error is as that leaves it and does not wait, and each whose
-- CheckConnections returns an error is shut down and waits for a restart under its ID and its own
-- place. Afterwards there is a current timer.
pub nats_disconnected-AllBecame :
    (s : Services) (b : Server)
    → b.running ≡ true
    → AreDistinct b.connectors
    → let b' = nats_disconnected s b in
      AllBecame s b.reconnect b'.reconnect 0 b.connectors b'.connectors
      × ((id : String)
          → contains id b.reconnect ≡ true
          → lookup id b'.reconnect ≡ lookup id b.reconnect)
      × (is_armed b'.reconnect_timer ≡ true)
unfolding nats_disconnected check_requirements ensure_reconnect_timer
nats_disconnected-AllBecame s b running distinct =
    let (cs', all) = check_all s 0 b.connectors b.reconnect in
    let e : (nats_disconnected s b).reconnect ≡ all = ground arith in
    let e' : (nats_disconnected s b).connectors ≡ cs' = ground arith in
    (
      subst (λ w. AllBecame s b.reconnect w 0 b.connectors (nats_disconnected s b).connectors)
          (sym e)
          (subst (AllBecame s b.reconnect all 0 b.connectors) (sym e') (
            check_all-AllBecame s b.reconnect 0 b.connectors b.reconnect distinct
              (Agree-refl b.reconnect b.connectors))),
      (λ id h. ground (arith, check_all-held s 0 b.connectors b.reconnect id h)),
      ground arith,
    )
