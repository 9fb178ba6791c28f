-- ===== src/Bridge/Reconnect.antt =====
-- How the bridge server of nats-mq/core/bridge.go and handlers.go restarts connectors: ConnectorError,
-- checkConnections, the timer's goroutine and Stop. Each of these runs as one step here; the source
-- holds the reconnect lock over them, and releases the running lock before it takes that one.
use nats_mq.Prelude.{
  ℕ, zero, suc, ◌+◌, String, Bool, true, false, not, List, [], ◌∷◌, Option, none, some, str_eq,
  ◌==◌, if◌then◌else◌,
}
use nats_mq.Error.{Error, ok, err}
use nats_mq.Connector.Services.{Services, Run}
use nats_mq.Connector.Create.{Kind, start, shutdown, check_connections}

-- The part of BridgeServer that reconnecting uses. A connector is pointed to by its place in
-- `connectors`, and `reconnect` maps an ID to such a place. A timer is a number: `pending` holds those
-- whose goroutine still waits, which are neither fired nor cancelled.
pub record Server : Type 0 where
  pub running : Bool
  pub stan : Bool
  pub stan_configured : Bool
  pub connectors : List (Kind × Run)
  pub reconnect : List (String × ℕ)
  pub reconnect_timer : Option ℕ
  pub pending : List ℕ
  pub next_timer : ℕ

abbrev pub remove : ℕ → List ℕ → List ℕ
remove n [] = []
remove n (m ∷ ms) = let rest = remove n ms in if n == m then rest else m ∷ rest

-- Only the ID counts, so connectors with the same configured ID are one here, as in the source.
abbrev pub contains : String → List (String × ℕ) → Bool
contains id [] = false
contains id ((j, p) ∷ m) = let rest = contains id m in if str_eq j id then true else rest

unfoldable pub ensure_reconnect_timer : Server → Server
ensure_reconnect_timer b = elim (b.reconnect_timer) [
  | some n ↦ b
  | none ↦ record b {
    reconnect_timer = some b.next_timer;
    pending = b.next_timer ∷ b.pending;
    next_timer = b.next_timer + 1;
  }
]

unfoldable pub stop_reconnect_timer : Server → Server
stop_reconnect_timer b = elim (b.reconnect_timer) [
  | none ↦ b
  | some n ↦ record b { reconnect_timer = none; pending = remove n b.pending }
]

-- connector.Shutdown() of the connector at a place; its error is only logged.
abbrev pub shutdown_at : Services → ℕ → List (Kind × Run) → List (Kind × Run)
shutdown_at s p [] = []
shutdown_at s zero ((k, r) ∷ cs) = (k, (shutdown k s r).1) ∷ cs
shutdown_at s (suc p) (c ∷ cs) = c ∷ shutdown_at s p cs

abbrev pub id_at : ℕ → List (Kind × Run) → Option String
id_at p [] = none
id_at zero ((k, r) ∷ cs) = some r.conn.stats.id
id_at (suc p) (c ∷ cs) = id_at p cs

-- What ConnectorError does under the reconnect lock, for the connector at a place.
abbrev pub keep_for_restart : Services → ℕ → Server → Server
keep_for_restart s p b = elim (id_at p b.connectors) [
  | none ↦ b
  | some id ↦
      if contains id b.reconnect
      then b
      else ensure_reconnect_timer (record b {
        connectors = shutdown_at s p b.connectors;
        reconnect = (id, p) ∷ b.reconnect;
      })
]

unfoldable pub connector_error : Services → ℕ → Server → Server
connector_error s p b = if not b.running then b else keep_for_restart s p b

-- One round of the loop of checkConnections.
abbrev pub check_one : Services → Kind → Run → ℕ → List (String × ℕ) → Run × List (String × ℕ)
check_one s k r p waiting =
    if contains r.conn.stats.id waiting
    then (r, waiting)
    else let (answer, r') = check_connections k s r in
      elim answer [
        | ok u ↦ (r', waiting)
        | err e ↦ ((shutdown k s r').1, (r.conn.stats.id, p) ∷ waiting)
      ]

unfoldable pub check_all :
    Services → ℕ → List (Kind × Run) → List (String × ℕ) → List (Kind × Run) × List (String × ℕ)
check_all s p [] waiting = ([], waiting)
check_all s p ((k, r) ∷ cs) waiting =
    let (r', waiting') = check_one s k r p waiting in
    let (cs', all) = check_all s (p + 1) cs waiting' in ((k, r') ∷ cs', all)

-- What checkConnections does under the reconnect lock.
abbrev pub check_locked : Services → Server → Server
check_locked s b =
    let (cs, waiting) = check_all s 0 b.connectors b.reconnect in
    ensure_reconnect_timer (record b { connectors = cs; reconnect = waiting })

unfoldable pub check_requirements : Services → Server → Server
check_requirements s b = if not b.running then b else check_locked s b

unfoldable pub nats_disconnected : Services → Server → Server
nats_disconnected s b = if not b.running then b else check_requirements s b

unfoldable pub stan_connection_lost : Services → Server → Server
stan_connection_lost s b =
    if not b.running then b else check_requirements s (record b { stan = false })

-- connectToSTAN, where `answer` is what stan.Connect returns.
unfoldable pub connect_to_stan : Option Error → Server → Option Error × Server
connect_to_stan answer b =
    if b.stan
    then (none, b)
    else if not b.stan_configured
    then (none, b)
    else elim answer [ some e ↦ (some e, b) | none ↦ (none, record b { stan = true }) ]

-- connector.Start() of the connector at a place.
abbrev pub start_at : Services → ℕ → List (Kind × Run) → Bool × List (Kind × Run)
start_at s p [] = (false, [])
start_at s zero ((k, r) ∷ cs) =
    let (answer, r') = start k s r in (elim answer [ ok u ↦ true | err e ↦ false ], (k, r') ∷ cs)
start_at s (suc p) (c ∷ cs) = let (started, cs') = start_at s p cs in (started, c ∷ cs')

-- The loop over bridge.reconnect: the entries that stay, and the connectors.
unfoldable pub restart_all :
    Services → List (String × ℕ) → List (Kind × Run) → List (String × ℕ) × List (Kind × Run)
restart_all s [] cs = ([], cs)
restart_all s ((id, p) ∷ waiting) cs =
    let (started, cs') = start_at s p cs in
    let (left, all) = restart_all s waiting cs' in ((if started then left else (id, p) ∷ left), all)

-- bridge.reconnectTimer = nil; bridge.ensureReconnectTimer()
unfoldable pub new_timer : Server → Server
new_timer b = ensure_reconnect_timer (record b { reconnect_timer = none })

-- if !bridge.CheckNATS() { ... }, which does not return
unfoldable pub wait_for_nats : Services → Server → Server
wait_for_nats s b = if s.check_nats then b else new_timer b

-- if bridge.stan == nil { ... }, which does not return either
unfoldable pub wait_for_stan : Option Error → Server → Server
wait_for_stan answer b =
    if b.stan
    then b
    else let (failed, b') = connect_to_stan answer b in
      elim failed [ none ↦ b' | some e ↦ new_timer b' ]

-- Do all the reconnects; then the timer is set to nil, and a new one is made if connectors are left.
unfoldable pub reconnect_waiting : Services → Server → Server
reconnect_waiting s b =
    let (left, cs) = restart_all s b.reconnect b.connectors in
    let b' = record b { connectors = cs; reconnect = left; reconnect_timer = none } in
    elim left [ [] ↦ b' | e ∷ es ↦ ensure_reconnect_timer b' ]

-- What the goroutine of ensureReconnectTimer does under the reconnect lock.
abbrev pub restart_locked : Services → Option Error → Server → Server
restart_locked s answer b = reconnect_waiting s (wait_for_stan answer (wait_for_nats s b))

-- The goroutine, when its timer n has run out.
unfoldable pub fire : Services → Option Error → ℕ → Server → Server
fire s answer n b = restart_locked s answer (record b { pending = remove n b.pending })

abbrev pub shutdown_each : Services → List (Kind × Run) → List (Kind × Run)
shutdown_each s [] = []
shutdown_each s ((k, r) ∷ cs) = (k, (shutdown k s r).1) ∷ shutdown_each s cs

-- Stop, as far as the connectors and the timer go. The fields `nats` and `stan` keep the closed
-- connections.
unfoldable pub stop : Services → Server → Server
stop s b =
    if not b.running
    then b
    else let b' = stop_reconnect_timer (record b { running = false }) in
      record b' { reconnect = []; connectors = shutdown_each s b'.connectors }

-- What happens to a bridge server, with what the libraries answer meanwhile.
pub data Event : Type 0 where
  connector_fails : Services → ℕ → Event
  nats_goes stan_goes : Services → Event
  timer_fires : Services → Option Error → ℕ → Event
  stops : Services → Event

unfoldable pub step : Event → Server → Server
step (connector_fails s p) b = connector_error s p b
step (nats_goes s) b = nats_disconnected s b
step (stan_goes s) b = stan_connection_lost s b
step (timer_fires s answer n) b = fire s answer n b
step (stops s) b = stop s b

unfoldable pub run : List Event → Server → Server
run [] b = b
run (e ∷ es) b = run es (step e b)
