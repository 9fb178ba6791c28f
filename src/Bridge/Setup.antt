-- ===== src/Bridge/Setup.antt =====
-- How the bridge server of nats-mq/core/bridge.go starts and stops as a whole: NewBridgeServer,
-- Start, startConnectors, connectToNATS, Stop, and the checks of its connections.
use nats_mq.Prelude.{
  ℕ, ◌+◌, String, Bool, true, false, not, List, [], ◌∷◌, Option, none, some, ◌<>◌, is_set,
  if◌then◌else◌,
}
use nats_mq.Prelude.Int.{ℤ}
use nats_mq.Error.{Error, Result, ok, err, done, fails, no_config_file}
use nats_mq.Float.{FloatOps}
use nats_mq.Conf.{BridgeConfig, NatsConfig, ConnectorConfig}
use nats_mq.Conf.Value.{Entries}
use nats_mq.Conf.Schema.{Fields}
use nats_mq.Conf.Scalars.{Conversions}
use nats_mq.Conf.Parse.{Parsed, load_config_from_file}
use nats_mq.Conf.Layout.{bridge_fields}
use nats_mq.Convert.Reply.{ReplyToInfo}
use nats_mq.Connector.Services.{Services, Connector, Run}
use nats_mq.Connector.Create.{Kind, start}
use nats_mq.Bridge.{Connectors, initialize_connectors}
use nats_mq.Bridge.Reconnect.{Server, connect_to_stan, stop}
use nats_mq.Monitoring.{Monitor, Network, start_monitoring, stop_monitoring}

-- `nats` is the connection as a number; `core` has the fields that reconnecting uses.
pub record BridgeServer : Type 0 where
  pub config : BridgeConfig
  pub nats : Option ℕ
  pub reply_to_info : ReplyToInfo
  pub core : Server
  pub monitor : Monitor

-- The options of nats.Connect, besides the handlers: the waits are in milliseconds.
pub record NatsOptions : Type 0 where
  pub max_reconnects : ℤ
  pub reconnect_wait : ℤ
  pub timeout : ℤ
  pub root_cas : Option String
  pub client_cert : Option (String × String)
  pub user_credentials : Option String

abbrev pub nats_options : NatsConfig → NatsOptions
nats_options c = record {
  max_reconnects = c.max_reconnects;
  reconnect_wait = c.reconnect_wait;
  timeout = c.connect_timeout;
  root_cas = if is_set c.tls.root then some c.tls.root else none;
  client_cert = if is_set c.tls.cert then some (c.tls.cert, c.tls.key) else none;
  user_credentials = if is_set c.creds_file then some c.creds_file else none;
}

-- strings.Join(config.Servers, ",")
abbrev pub join_servers : List String → String
join_servers [] = ""
join_servers (s ∷ []) = s
join_servers (s ∷ t ∷ ts) = let rest = join_servers (t ∷ ts) in s <> "," <> rest

-- What the libraries answer during one Start: nats.Connect, stan.Connect, nuid.Next() for the n-th
-- connector, the connectors' services, and the network of the monitoring server.
pub record StartAnswers : Type 0 where
  pub nats_connect : String → NatsOptions → Result ℕ
  pub stan_connect : Option Error
  pub nuid : ℕ → String
  pub services : Services
  pub network : Network

-- An error, or none, with the server as it is then.
abbrev pub Step : Type 0
Step = Option Error × BridgeServer

-- if err := ...; err != nil { return err }
unfoldable pub or_return : Step → (BridgeServer → Step) → Step
or_return (some e, b) next = (some e, b)
or_return (none, b) next = next b

abbrev pub nats_connected : BridgeServer → Result ℕ → Step
nats_connected b (err e) = (some e, b)
nats_connected b (ok nc) = (none, record b { nats = some nc })

unfoldable pub connect_to_nats : StartAnswers → BridgeServer → Step
connect_to_nats a b =
    nats_connected b
      (a.nats_connect (join_servers b.config.nats.servers) (nats_options b.config.nats))

abbrev pub with_core : BridgeServer → Option Error × Server → Step
with_core b (e, core) = (e, record b { core = core })

abbrev pub numbered : (ℕ → String) → ℕ → List ConnectorConfig → List (String × ConnectorConfig)
numbered nuid n [] = []
numbered nuid n (c ∷ cs) = (nuid n, c) ∷ numbered nuid (n + 1) cs

abbrev pub not_started : List (Kind × Connector) → List (Kind × Run)
not_started [] = []
not_started ((k, c) ∷ cs) = (k, record { conn = c; trace = [] }) ∷ not_started cs

abbrev pub with_connectors : BridgeServer → Option Error × Connectors → Step
with_connectors b (e, made) = (
  e,
  record b {
    reply_to_info = made.reply_to_info;
    core = record b.core { connectors = not_started made.connectors };
  },
)

-- startConnectors: the first error ends the loop.
unfoldable pub start_connectors : Services → List (Kind × Run) → Option Error × List (Kind × Run)
start_connectors s [] = (none, [])
start_connectors s ((k, r) ∷ cs) =
    let (e, rest) = start_connectors s cs in
    elim ((start k s r).0) [
      | err x ↦ (some x, (k, (start k s r).1) ∷ cs)
      | ok u ↦ (e, (k, (start k s r).1) ∷ rest)
    ]

abbrev pub with_started : BridgeServer → Option Error × List (Kind × Run) → Step
with_started b (e, cs) = (e, record b { core = record b.core { connectors = cs } })

abbrev pub with_monitor : BridgeServer → Option Error × Monitor → Step
with_monitor b (e, m) = (e, record b { monitor = m })

-- What Start sets before it connects. The streaming connection and the timer stay as they are.
abbrev pub set_up : BridgeServer → BridgeServer
set_up b = record b {
  reply_to_info = [];
  core = record b.core {
    running = true;
    connectors = [];
    reconnect = [];
    stan_configured = is_set b.config.stan.cluster_id;
  };
}

-- The parts of Start from its last step back to its first.
module _ (f : FloatOps) (a : StartAnswers) where
  unfoldable pub then_monitor : BridgeServer → Step
  then_monitor b = with_monitor b (start_monitoring a.network b.config.monitoring b.monitor)

  unfoldable pub then_start_connectors : BridgeServer → Step
  unfolding or_return start_connectors then_monitor
  then_start_connectors b =
      or_return (with_started b (start_connectors a.services b.core.connectors)) then_monitor

  abbrev pub made_connectors : BridgeServer → Step
  made_connectors b = with_connectors b (
      initialize_connectors f (numbered a.nuid 0 b.config.connect)
        (record { connectors = []; reply_to_info = b.reply_to_info }))

  unfoldable pub then_initialize : BridgeServer → Step
  unfolding or_return then_start_connectors
  then_initialize b = or_return (made_connectors b) then_start_connectors

  unfoldable pub then_connect_to_stan : BridgeServer → Step
  unfolding or_return then_initialize
  then_connect_to_stan b =
      or_return (with_core b (connect_to_stan a.stan_connect b.core)) then_initialize

  unfoldable pub start_bridge : BridgeServer → Step
  unfolding or_return connect_to_nats then_connect_to_stan
  start_bridge b = or_return (connect_to_nats a (set_up b)) then_connect_to_stan

-- Stop, with what the monitoring server's Shutdown returns.
unfoldable pub stop_bridge : Services → Option Error → BridgeServer → BridgeServer
stop_bridge s answer b =
    if not b.core.running
    then b
    else record b { core = stop s b.core; monitor = (stop_monitoring answer b.monitor).1 }

-- The handler of a closed NATS connection: whether it stops the bridge.
abbrev pub nats_closed : BridgeServer → Bool
nats_closed b = b.core.running

-- CheckNATS and CheckStan, with nats.ConnectedUrl(), and checkReconnecting.
unfoldable pub check_nats : String → BridgeServer → Bool
check_nats connected_url b = elim (b.nats) [ none ↦ false | some nc ↦ is_set connected_url ]

unfoldable pub check_stan : String → BridgeServer → Bool
check_stan connected_url b = elim (b.nats) [
  | none ↦ b.core.stan
  | some nc ↦ if is_set connected_url then b.core.stan else false
]

abbrev pub check_reconnecting : BridgeServer → Bool
check_reconnecting b = elim (b.core.reconnect) [ [] ↦ false | w ∷ ws ↦ true ]

-- LoadConfigFile, on the fields of the configuration: `variable` is $MQNATS_BRIDGE_CONFIG, and `read`
-- and `conf_parse` are what the file system and the parser make of a file. A configuration that does
-- not load is not stored.
abbrev pub stored : Fields → Parsed Fields → Parsed Fields
stored old (done u, config) = (done u, config)
stored old (o, config) = (o, old)

unfoldable pub load_config_file :
    Conversions
    → BridgeConfig
    → (String → Result String)
    → (String → Result Entries)
    → String
    → String
    → Fields
    → Parsed Fields
unfolding load_config_from_file
load_config_file c standard read conf_parse variable config_file old =
    let file = if is_set config_file then config_file else variable in
    if not (is_set file)
    then (fails no_config_file, old)
    else stored old (load_config_from_file c false (read file) conf_parse (bridge_fields standard))
