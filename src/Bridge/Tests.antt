-- ===== src/Bridge/Tests.antt =====
-- Runs of the bridge server's set-up, and its properties at concrete inputs.
use nats_mq.Prelude.Dict.{lookup}
use nats_mq.Prelude.{
  arith, not, ◌+◌, true, false, ◌≢◌, ℕ, Option, String, ◌≡◌, refl, List, [], ◌∷◌, none, some,
  is_set, length, if◌then◌else◌,
}
use nats_mq.Error.{Error, ok, unknown_connector}
use nats_mq.Conf.{ConnectorConfig}
use nats_mq.Convert.Mqmd.{Mqmd}
use nats_mq.Convert.Reply.{ReplyToInfo, register_reply_info, reply_to_nats}
use nats_mq.Connector.Services.{Services, Connector}
use nats_mq.Connector.Create.{queue2nats, queue2stan, shutdown, nats2queue, init, create_connector}
use nats_mq.Bridge.{Connectors, initialize_connectors}
use nats_mq.Bridge.Replies.{
  Registered, initialize_connectors-Registered, reply_to_nats-create_connector,
}
use nats_mq.Bridge.Reconnect.{
  start_at, Server, restart_locked, fire, stop, step, Event, nats_goes, timer_fires, run, contains,
  nats_disconnected,
}
use nats_mq.Bridge.Restarts.{
  connector_at, after_start, has_place, failing, timers_made, fire-failing,
}
use nats_mq.Bridge.Checks.{AllBecame, nats_disconnected-AllBecame}
use nats_mq.Bridge.Timers.{Abandoned, fire_rounds, outage_outlives_stop, is_armed, is_empty}
use nats_mq.Bridge.Outages.{IsWaiting, intervals, outage_doubles_timers}
use nats_mq.Bridge.Interleaving.{
  World, advance, error_at, restarting, cancels, Reach, start, later, error_arises, timer_ends,
  Step, clears, stop_begins, stop_cancels, stop_clears, stop_shuts_down, stop_ends, goes_on, here,
  there, at_rest,
}
use nats_mq.Bridge.Interleaving.Wakeups.{IsAwaited, Reach-IsAwaited}
use nats_mq.Bridge.Interleaving.Quiet.{FirstReleased, quiet_stop_is_final}
use nats_mq.Bridge.Interleaving.Late.{IsRevived, late_error_outlives_stop}
use nats_mq.Samples.{fresh, answering, numbers, config0, mqmd0}

abbrev outgoing : ConnectorConfig
outgoing = record config0 { kind = "Queue2NATS"; mq = record config0.mq { queue_manager = "QM1" } }

abbrev answering_queue : ConnectorConfig
answering_queue = record outgoing { kind = "NATS2Queue"; subject = "answers"; queue = "back" }

abbrev broken_config : ConnectorConfig
broken_config = record config0 { kind = "Queue2Moon" }

abbrev no_connectors : Connectors
no_connectors = record { connectors = []; reply_to_info = [] }

abbrev configs : List (String × ConnectorConfig)
configs = ("n1", outgoing) ∷ ("n2", broken_config) ∷ ("n3", answering_queue) ∷ []

-- The second configuration is refused, and the third is not looked at.
stops_at_error :
    (initialize_connectors numbers configs no_connectors).0 ≡ some (unknown_connector "Queue2Moon")
unfolding initialize_connectors create_connector nats_mq.Connector.Create.kind_of
stops_at_error = refl

empty-Registered : Registered []
unfolding nats_mq.Prelude.Dict.lookup
empty-Registered key c found = cc

initialize_connectors-Registered_example :
    Registered (initialize_connectors numbers configs no_connectors).1.reply_to_info
initialize_connectors-Registered_example =
    initialize_connectors-Registered numbers configs no_connectors empty-Registered

abbrev answering_connector : Connector
answering_connector = init numbers "n3" answering_queue "NATS:answers to Queue:back"

abbrev answering_info : ReplyToInfo
answering_info = register_reply_info "Q:back@QM1" answering_queue []

answering_created :
    create_connector numbers "n3" [] answering_queue
    ≡ ok (nats2queue, answering_connector, answering_info)
unfolding create_connector nats_mq.Connector.Create.kind_of nats_mq.Connector.Create.connector_name
    nats_mq.Connector.Create.reply_key
answering_created = refl

abbrev wants_answer : Mqmd
wants_answer = record mqmd0 { reply_to_q = "back"; reply_to_q_mgr = "QM1" }

reply_to_nats-create_connector_example :
    reply_to_nats answering_info (some wants_answer)
    ≡ (if is_set "answers" then ("answers", "") else ("", ""))
reply_to_nats-create_connector_example =
    reply_to_nats-create_connector numbers "n3" [] answering_queue nats2queue answering_connector
      answering_info wants_answer answering_created refl refl refl refl refl

abbrev outgoing_connector : Connector
outgoing_connector = init numbers "n1" outgoing "Queue:in to NATS:out"

abbrev outgoing_info : ReplyToInfo
outgoing_info = register_reply_info "S:out" outgoing answering_info

outgoing_created :
    create_connector numbers "n1" answering_info outgoing
    ≡ ok (queue2nats, outgoing_connector, outgoing_info)
unfolding create_connector nats_mq.Connector.Create.kind_of nats_mq.Connector.Create.connector_name
    nats_mq.Connector.Create.reply_key
outgoing_created = refl

-- A server that waits for its timer 0 to restart its only connector.
abbrev waiting_server : Server
waiting_server = record {
  running = true;
  stan = false;
  stan_configured = false;
  connectors = (queue2nats, fresh) ∷ [];
  reconnect = ("c1", 0) ∷ [];
  reconnect_timer = some 0;
  pending = 0 ∷ [];
  next_timer = 1;
}

abbrev nats_down : Services
nats_down = record answering { check_nats = false }

-- While NATS is down one run of the timer leaves two timers that goroutines wait for.
two_timers : (fire nats_down none 0 waiting_server).pending ≡ 2 ∷ 1 ∷ []
unfolding fire nats_mq.Bridge.Reconnect.reconnect_waiting nats_mq.Bridge.Reconnect.wait_for_stan
    nats_mq.Bridge.Reconnect.wait_for_nats nats_mq.Bridge.Reconnect.new_timer
    nats_mq.Bridge.Reconnect.connect_to_stan nats_mq.Bridge.Reconnect.ensure_reconnect_timer
    nats_mq.Bridge.Reconnect.restart_all nats_mq.Connector.Create.start
    nats_mq.Connector.Kinds.require_nats
two_timers = refl

abbrev two_rounds : List (Services × Option Error)
two_rounds = (nats_down, none) ∷ (nats_down, none) ∷ []

outage_outlives_stop_example :
    (m : ℕ) × Abandoned m
      (fire_rounds two_rounds (stop nats_down (fire nats_down none 0 waiting_server)))
outage_outlives_stop_example =
    outage_outlives_stop nats_down nats_down none 0 waiting_server two_rounds refl refl refl refl
      refl (refl, (refl, tt))

abbrev running_server : Server
running_server = record waiting_server { reconnect = []; reconnect_timer = none; pending = [] }

nats_disconnected-AllBecame_example :
    let b' = nats_disconnected nats_down running_server in
    AllBecame nats_down [] b'.reconnect 0 ((queue2nats, fresh) ∷ []) b'.connectors
    × ((id : String) → contains id [] ≡ true → lookup id b'.reconnect ≡ lookup id [])
    × (is_armed b'.reconnect_timer ≡ true)
nats_disconnected-AllBecame_example =
    nats_disconnected-AllBecame nats_down running_server refl (tt, tt)

-- A second connector waits too, and cannot start: its type needs streaming.
abbrev two_waiting : Server
two_waiting = record waiting_server {
  connectors = (queue2nats, fresh) ∷ (queue2stan, fresh) ∷ [];
  reconnect = ("c2", 1) ∷ ("c1", 0) ∷ [];
}

abbrev no_streaming : Services
no_streaming = record answering { check_stan = false }

fire-failing_example :
    let b' = fire no_streaming none 0 two_waiting in
    (b'.reconnect ≡ failing no_streaming two_waiting.connectors two_waiting.reconnect)
    × ((p : ℕ)
        → connector_at p b'.connectors ≡ (
            if has_place p two_waiting.reconnect
            then after_start no_streaming (connector_at p two_waiting.connectors)
            else connector_at p two_waiting.connectors))
    × (is_armed b'.reconnect_timer ≡ not (is_empty b'.reconnect))
    × (b'.next_timer ≡ 1 + timers_made no_streaming none two_waiting b'.reconnect)
fire-failing_example = fire-failing no_streaming none 0 two_waiting (refl, (refl, tt))

-- Only the second one still waits.
one_left : failing no_streaming two_waiting.connectors two_waiting.reconnect ≡ ("c2", 1) ∷ []
unfolding nats_mq.Connector.Create.start nats_mq.Connector.Steps.connect_to_mq
    nats_mq.Connector.Steps.connect_to_queue nats_mq.Connector.Steps.connect_to_queue_manager
    nats_mq.Connector.Steps.set_up_listener nats_mq.Connector.Steps.count_connect
    nats_mq.Connector.Kinds.require_nats nats_mq.Connector.Kinds.require_stan
one_left = refl

waiting_server-IsWaiting : IsWaiting waiting_server
waiting_server-IsWaiting = record { settled = refl; stuck = refl; differ = refl; older = refl }

outage_doubles_timers_example : length (intervals two_rounds waiting_server).pending ≡ 4
outage_doubles_timers_example =
    outage_doubles_timers two_rounds waiting_server (refl, (refl, tt)) waiting_server-IsWaiting

-- The timer runs out, a connector reports an error, and Stop begins before either goroutine goes on.
abbrev before_locks : World
before_locks = record {
  server = record waiting_server { running = false; pending = [] };
  calls = error_at 0 ∷ restarting 0 ∷ [];
  stopping = some cancels;
}

before_locks-Reach : Reach (at_rest waiting_server) before_locks
before_locks-Reach =
    later (later (later start (timer_ends 0 refl)) (error_arises 0 refl)) (stop_begins refl refl)

-- Then the goroutine of the timer goes on, and Stop cancels a timer after it.
abbrev after_restart : World
after_restart = record {
  server = restart_locked nats_down none before_locks.server;
  calls = error_at 0 ∷ [];
  stopping = some cancels;
}

after_restart-Reach : Reach (at_rest waiting_server) after_restart
unfolding advance
after_restart-Reach = later before_locks-Reach (goes_on nats_down none (there here))

waiting_server-IsAwaited : IsAwaited (at_rest waiting_server)
waiting_server-IsAwaited = record { timer = refl; waiting = λ off more. refl }

Reach-IsAwaited_example : IsAwaited after_restart
Reach-IsAwaited_example = Reach-IsAwaited after_restart-Reach waiting_server-IsAwaited

late_error_outlives_stop_example :
    (u : World) × Reach (at_rest running_server) u × IsRevived fresh.conn.stats.id 0 u
late_error_outlives_stop_example =
    late_error_outlives_stop answering 0 fresh.conn.stats.id running_server refl refl

-- A Stop that has cancelled the timer of the server, and then goes on to its end.
abbrev cancelled : World
cancelled = record {
  server = record waiting_server { running = false; reconnect_timer = none; pending = [] };
  calls = [];
  stopping = some clears;
}

cancelled-Reach : Reach (at_rest waiting_server) cancelled
unfolding nats_mq.Bridge.Reconnect.stop_reconnect_timer
cancelled-Reach = later (later start (stop_begins refl refl)) (stop_cancels refl)

abbrev ended : World
ended = at_rest (record cancelled.server {
  reconnect = [];
  connectors = (queue2nats, (shutdown queue2nats answering fresh).1) ∷ [];
})

ended-Reach : Reach cancelled ended
ended-Reach =
    later (later (later start (stop_clears refl)) (stop_shuts_down answering 0 refl (omega arith)))
      (stop_ends refl)

quiet_stop_is_final_example :
    (ended.server.running ≡ false)
    × (ended.calls ≡ [])
    × (ended.server.pending ≡ [])
    × (ended.server.reconnect_timer ≡ none)
    × (ended.server.reconnect ≡ [])
    × FirstReleased 1 ended.server.connectors
    × ((v : World) → Step ended v → ⊥)
quiet_stop_is_final_example =
    quiet_stop_is_final {w = cancelled} {u = ended}
      (record { off = refl; idle = refl; none_sleeps = refl; untimed = refl; next = refl })
      ended-Reach refl
