-- ===== src/Bridge/Restarts.antt =====
-- What the goroutine of a timer of nats-mq/core/bridge.go restarts when the timer runs out.
use nats_mq.Prelude.{
  ℕ, zero, suc, ◌+◌, ◌≡◌, refl, String, Bool, true, false, not, List, [], ◌∷◌, Option, none, some,
  arith, ◌==◌, if◌then◌else◌,
}
use nats_mq.Error.{Error, ok, err}
use nats_mq.Connector.Services.{Services, Run}
use nats_mq.Connector.Create.{Kind, start}
use nats_mq.Bridge.Reconnect.{
  Server, start_at, restart_all, wait_for_nats, wait_for_stan, connect_to_stan, new_timer,
  ensure_reconnect_timer, reconnect_waiting, fire,
}
use nats_mq.Bridge.Timers.{is_armed, is_empty, stan_settled}

abbrev pub connector_at : ℕ → List (Kind × Run) → Option (Kind × Run)
connector_at p [] = none
connector_at zero (c ∷ cs) = some c
connector_at (suc p) (c ∷ cs) = connector_at p cs

-- Whether the Start of a connector returns no error.
abbrev pub starts : Services → Option (Kind × Run) → Bool
starts s none = false
starts s (some (k, r)) = elim ((start k s r).0) [ ok u ↦ true | err e ↦ false ]

-- A connector as its Start leaves it.
abbrev pub after_start : Services → Option (Kind × Run) → Option (Kind × Run)
after_start s none = none
after_start s (some (k, r)) = some (k, (start k s r).1)

abbrev pub has_place : ℕ → List (String × ℕ) → Bool
has_place p [] = false
has_place p ((id, q) ∷ waiting) = let rest = has_place p waiting in if p == q then true else rest

-- No two entries point to the same connector.
abbrev pub AreApart : List (String × ℕ) → Type 0
AreApart [] = Unit
AreApart ((id, p) ∷ waiting) = (has_place p waiting ≡ false) × AreApart waiting

-- The entries whose connectors do not start.
abbrev pub failing : Services → List (Kind × Run) → List (String × ℕ) → List (String × ℕ)
failing s cs [] = []
failing s cs ((id, p) ∷ waiting) =
    let rest = failing s cs waiting in if starts s (connector_at p cs) then rest else (id, p) ∷ rest

module _ (s : Services) where
  start_at-starts :
      (p : ℕ) (cs : List (Kind × Run)) → (start_at s p cs).0 ≡ starts s (connector_at p cs)
  start_at-starts p [] = ground arith
  start_at-starts zero ((k, r) ∷ cs) = refl
  start_at-starts (suc p) (c ∷ cs) = start_at-starts p cs

  connector_at-start_at :
      (p q : ℕ) (cs : List (Kind × Run))
      → connector_at q (start_at s p cs).1
        ≡ (if q == p then after_start s (connector_at q cs) else connector_at q cs)
  connector_at-start_at p q [] = ground arith
  connector_at-start_at zero zero ((k, r) ∷ cs) = refl
  connector_at-start_at zero (suc q) ((k, r) ∷ cs) = ground arith
  connector_at-start_at (suc p) zero (c ∷ cs) = ground arith
  connector_at-start_at (suc p) (suc q) (c ∷ cs) = ground (arith, connector_at-start_at p q cs)

  failing-start_at :
      (p : ℕ) (cs : List (Kind × Run)) (waiting : List (String × ℕ))
      → has_place p waiting ≡ false
      → failing s (start_at s p cs).1 waiting ≡ failing s cs waiting
  failing-start_at p cs [] apart = refl
  failing-start_at p cs ((id, q) ∷ waiting) apart =
      ground (arith, connector_at-start_at p q cs, failing-start_at p cs waiting)

  restart_all-failing :
      (waiting : List (String × ℕ)) (cs : List (Kind × Run))
      → AreApart waiting
      → (restart_all s waiting cs).0 ≡ failing s cs waiting
  unfolding restart_all
  restart_all-failing [] cs apart = refl
  restart_all-failing ((id, p) ∷ waiting) cs apart = ground (
    arith,
    start_at-starts p cs,
    restart_all-failing waiting (start_at s p cs).1 apart.1,
    failing-start_at p cs waiting apart.0,
  )

  connector_at-restart_all :
      (q : ℕ) (waiting : List (String × ℕ)) (cs : List (Kind × Run))
      → AreApart waiting
      → connector_at q (restart_all s waiting cs).1
        ≡ (if has_place q waiting then after_start s (connector_at q cs) else connector_at q cs)
  unfolding restart_all
  connector_at-restart_all q [] cs apart = refl
  connector_at-restart_all q ((id, p) ∷ waiting) cs apart = ground (
    arith,
    connector_at-restart_all q waiting (start_at s p cs).1 apart.1,
    connector_at-start_at p q cs,
    apart.0,
  )

-- The timers that a goroutine makes: one where NATS is down, one where connecting to streaming fails,
-- and one where connectors are left.
abbrev pub timers_made : Services → Option Error → Server → List (String × ℕ) → ℕ
timers_made s answer b left =
    (if s.check_nats then 0 else 1)
    + (if stan_settled b then 0 else elim answer [ none ↦ 0 | some e ↦ 1 ])
    + (if is_empty left then 0 else 1)

-- When a timer runs out and no two entries of the map point to the same connector: of the connectors
-- that wait for a restart, exactly those whose Start returns an error still wait, each waiting
-- connector is as its Start leaves it, and every other is as before. The server has a current timer
-- exactly if connectors still wait. It has made one new timer for each of these that holds: NATS was
-- down, streaming was configured, not held and could not be connected, connectors still wait.
pub fire-failing :
    (s : Services) (answer : Option Error) (n : ℕ) (b : Server)
    → AreApart b.reconnect
    → let b' = fire s answer n b in
      (b'.reconnect ≡ failing s b.connectors b.reconnect)
      × ((p : ℕ)
          → connector_at p b'.connectors ≡ (
              if has_place p b.reconnect
              then after_start s (connector_at p b.connectors)
              else connector_at p b.connectors))
      × (is_armed b'.reconnect_timer ≡ not (is_empty b'.reconnect))
      × (b'.next_timer ≡ b.next_timer + timers_made s answer b b'.reconnect)
unfolding fire reconnect_waiting wait_for_stan connect_to_stan wait_for_nats new_timer
    ensure_reconnect_timer
fire-failing s answer n b apart = (
  ground (arith, restart_all-failing s b.reconnect b.connectors apart),
  (λ p. ground (arith, connector_at-restart_all s p b.reconnect b.connectors apart)),
  ground arith,
  ground arith,
)
