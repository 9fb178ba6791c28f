-- ===== src/Process/Tests.antt =====
-- Runs of a whole bridge server and of the process around it, and their properties at concrete inputs.
use nats_mq.Prelude.{
  ℕ, ◌+◌, ◌≡◌, refl, String, Bool, true, false, List, [], ◌∷◌, Option, none, some, length,
}
use nats_mq.Prelude.Int.{pos, negsuc}
use nats_mq.Error.{Error, ok, nats}
use nats_mq.Conf.{BridgeConfig, default_bridge_config}
use nats_mq.Bridge.Setup.{
  BridgeServer, StartAnswers, start_bridge, stop_bridge, nats_options, join_servers, check_nats,
  check_stan,
}
use nats_mq.Bridge.Release.{AllReleased, stop_bridge-start_bridge}
use nats_mq.Process.{
  new_server, Process, StopAnswers, Signal, interrupt, hup, on_signal, on_signals,
}
use nats_mq.Process.Restarts.{running_number, AllRestart, restarted_servers_run}
use nats_mq.Samples.{numbers, answering, config0}

-- One connector, and the monitoring server on any free port.
abbrev small_config : BridgeConfig
unfolding default_bridge_config
small_config = record (default_bridge_config "_STAN.discover" (pos 16384)) {
  monitoring = record (default_bridge_config "_STAN.discover" (pos 16384)).monitoring {
    http_port = negsuc 0;
  };
  connect = record config0 { kind = "Queue2NATS" } ∷ [];
}

abbrev all_well : StartAnswers
all_well = record {
  nats_connect = λ servers options. ok 3;
  stan_connect = none;
  nuid = λ n. "n";
  services = answering;
  network = record {
    load_key_pair = λ cert key. none;
    listen = λ secure address. ok (5, pos 40123);
  };
}

nats_is_down :
    (start_bridge numbers
      (record all_well { nats_connect = λ servers options. nats_mq.Error.err (nats 1) })
      (new_server small_config)).0
    ≡ some (nats 1)
unfolding small_config start_bridge nats_mq.Bridge.Setup.connect_to_nats
    nats_mq.Bridge.Setup.or_return
nats_is_down = refl

small_starts : (start_bridge numbers all_well (new_server small_config)).0 ≡ none
unfolding small_config start_bridge nats_mq.Bridge.Setup.connect_to_nats
    nats_mq.Bridge.Setup.or_return nats_mq.Bridge.Setup.then_connect_to_stan
    nats_mq.Bridge.Setup.then_initialize nats_mq.Bridge.Setup.then_start_connectors
    nats_mq.Bridge.Setup.then_monitor nats_mq.Bridge.Setup.start_connectors
    nats_mq.Bridge.Reconnect.connect_to_stan nats_mq.Bridge.initialize_connectors
    nats_mq.Connector.Create.create_connector nats_mq.Connector.Create.kind_of
    nats_mq.Connector.Create.init nats_mq.Connector.Create.start
    nats_mq.Connector.Steps.connect_to_mq nats_mq.Connector.Steps.connect_to_queue
    nats_mq.Connector.Steps.connect_to_queue_manager nats_mq.Connector.Steps.set_up_listener
    nats_mq.Connector.Steps.count_connect nats_mq.Connector.Kinds.require_nats
    nats_mq.Monitoring.start_monitoring
small_starts = refl

abbrev started_server : BridgeServer
started_server = (start_bridge numbers all_well (new_server small_config)).1

stop_bridge-start_bridge_example :
    let c = stop_bridge answering none started_server in
    (c.core.running ≡ false)
    × (c.core.reconnect ≡ [])
    × (c.core.reconnect_timer ≡ none)
    × (c.monitor.http_listener ≡ none)
    × AllReleased c.core.connectors
stop_bridge-start_bridge_example =
    stop_bridge-start_bridge numbers all_well answering (new_server small_config) started_server
      (nats_mq.Prelude.ap (λ x. (x, started_server)) small_starts)

abbrev stopping : StopAnswers
stopping = record { services = answering; shutdown = none }

abbrev one_running : Process
one_running = record { server = started_server; restarted = []; exited = false }

abbrev two_hups : List Signal
two_hups = hup stopping small_config all_well ∷ hup stopping small_config all_well ∷ []

restarted_servers_run_example :
    let p' = on_signal numbers (interrupt stopping) (on_signals numbers two_hups one_running) in
    (p'.exited ≡ true) × (p'.server.core.running ≡ false) × (running_number p'.restarted ≡ 2 + 0)
unfolding AllRestart
restarted_servers_run_example =
    restarted_servers_run numbers two_hups stopping one_running refl
      (small_starts, (small_starts, tt))

server_list : join_servers ("a" ∷ "b" ∷ "c" ∷ []) ≡ "a,b,c"
server_list = refl
