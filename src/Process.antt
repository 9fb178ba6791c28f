-- ===== src/Process.antt =====
-- nats-mq/main.go: the process around the bridge server, and its signals.
use nats_mq.Prelude.{
  ℕ, suc, ◌+◌, ◌≡◌, refl, sym, ap, ◌∙◌, Bool, true, false, List, [], ◌∷◌, ◌++◌, Option, none, some,
  arith, if◌then◌else◌,
}
use nats_mq.Prelude.Int.{pos}
use nats_mq.Error.{Error}
use nats_mq.Float.{FloatOps}
use nats_mq.Conf.{BridgeConfig}
use nats_mq.Connector.Services.{Services}
use nats_mq.Bridge.Setup.{BridgeServer, StartAnswers, start_bridge, stop_bridge}
pub mod Restarts
mod Tests

-- core.NewBridgeServer(), with its configuration after server.LoadConfigFile, whose error is ignored.
abbrev pub new_server : BridgeConfig → BridgeServer
new_server config = record {
  config = config;
  nats = none;
  reply_to_info = [];
  core = record {
    running = false;
    stan = false;
    stan_configured = false;
    connectors = [];
    reconnect = [];
    reconnect_timer = none;
    pending = [];
    next_timer = 0;
  };
  monitor = record {
    http_req_stats = none;
    http_handler = false;
    monitoring_server = false;
    http_listener = none;
    monitoring_url = "";
  };
}

-- `server` is the variable of main. The signal handler's own variable of that name lives for one
-- signal: `restarted` holds the servers that it had, latest first.
pub record Process : Type 0 where
  pub server : BridgeServer
  pub restarted : List BridgeServer
  pub exited : Bool

-- What a Stop during the handling of a signal meets: what the services answer, and what the shutdown
-- of the monitoring server returns.
pub record StopAnswers : Type 0 where
  pub services : Services
  pub shutdown : Option Error

pub data Signal : Type 0 where
  interrupt : StopAnswers → Signal
  hup : StopAnswers → BridgeConfig → StartAnswers → Signal

module _ (f : FloatOps) where
  -- A server after its Start; if that failed, it is stopped and the process exits.
  abbrev pub started_or_exit : StopAnswers → Option Error × BridgeServer → Bool × BridgeServer
  started_or_exit s (none, b) = (false, b)
  started_or_exit s (some e, b) = (true, stop_bridge s.services s.shutdown b)

  abbrev pub launched : Bool × BridgeServer → Process
  launched (exited, b) = record { server = b; restarted = []; exited = exited }

  -- main, until it leaves the process to its goroutines.
  unfoldable pub main : StopAnswers → BridgeConfig → StartAnswers → Process
  main s config a = launched (started_or_exit s (start_bridge f a (new_server config)))

  abbrev pub restarted_as : BridgeServer → List BridgeServer → Bool × BridgeServer → Process
  restarted_as old others (exited, b) = record {
    server = old;
    restarted = b ∷ others;
    exited = exited;
  }

  -- A round of the signal loop. The variable that is set for a SIGHUP hides the one of main, which
  -- stays as it is.
  unfoldable pub on_signal : Signal → Process → Process
  on_signal (interrupt s) p =
      if p.exited
      then p
      else record p { server = stop_bridge s.services s.shutdown p.server; exited = true }
  on_signal (hup s config a) p =
      if p.exited
      then p
      else restarted_as (stop_bridge s.services s.shutdown p.server) p.restarted
          (started_or_exit s (start_bridge f a (new_server config)))

  unfoldable pub on_signals : List Signal → Process → Process
  unfolding on_signal
  on_signals [] p = p
  on_signals (g ∷ gs) p = on_signals gs (on_signal g p)
