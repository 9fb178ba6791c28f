-- ===== src/Conf.antt =====
-- nats-mq/conf/conf.go: the configuration of the bridge, and its default.
pub mod Value
pub mod Schema
pub mod HostPorts
pub mod Scalars
pub mod Parse
pub mod Types
pub mod Print
pub mod RoundTrip
pub mod Strict
pub mod Panics
pub mod Printable
pub mod Layout
pub mod Reload
pub mod Paths
mod Tests
use nats_mq.Prelude.{String, Bool, true, false, List, []}
use nats_mq.Prelude.Int.{ℤ, pos}

abbrev pub queue2nats_type : String
queue2nats_type = "Queue2NATS"

abbrev pub queue2stan_type : String
queue2stan_type = "Queue2Stan"

abbrev pub stan2queue_type : String
stan2queue_type = "Stan2Queue"

abbrev pub nats2queue_type : String
nats2queue_type = "NATS2Queue"

abbrev pub topic2nats_type : String
topic2nats_type = "Topic2NATS"

abbrev pub topic2stan_type : String
topic2stan_type = "Topic2Stan"

abbrev pub stan2topic_type : String
stan2topic_type = "Stan2Topic"

abbrev pub nats2topic_type : String
nats2topic_type = "NATS2Topic"

pub record TlsConf : Type 0 where
  pub key : String
  pub cert : String
  pub root : String

pub record MonitoringConfig : Type 0 where
  pub http_host : String
  pub http_port : ℤ
  pub https_port : ℤ
  pub tls : TlsConf

-- logging.Config of nats-mq/logging/logging.go
pub record LoggingConfig : Type 0 where
  pub time : Bool
  pub debug : Bool
  pub trace : Bool
  pub colors : Bool
  pub pid : Bool

pub record MqConfig : Type 0 where
  pub connection_name : String
  pub channel_name : String
  pub queue_manager : String
  pub user_name : String
  pub password : String
  pub key_repository : String
  pub certificate_label : String
  pub ssl_peer_name : String

pub record NatsConfig : Type 0 where
  pub servers : List String
  pub connect_timeout : ℤ
  pub reconnect_wait : ℤ
  pub max_reconnects : ℤ
  pub tls : TlsConf
  pub username : String
  pub password : String
  pub creds_file : String

pub record NatsStreamingConfig : Type 0 where
  pub cluster_id : String
  pub client_id : String
  pub pub_ack_wait : ℤ
  pub discover_prefix : String
  pub max_pub_acks_inflight : ℤ
  pub connect_wait : ℤ

-- `kind` is the source's `Type`.
pub record ConnectorConfig : Type 0 where
  pub id : String
  pub kind : String
  pub channel : String
  pub durable_name : String
  pub start_at_sequence : ℤ
  pub start_at_time : ℤ
  pub subject : String
  pub nats_queue : String
  pub mq : MqConfig
  pub topic : String
  pub queue : String
  pub use_polling : Bool
  pub incoming_buffer_size : ℤ
  pub incoming_message_wait : ℤ
  pub exclude_headers : Bool

pub record BridgeConfig : Type 0 where
  pub reconnect_interval : ℤ
  pub nats : NatsConfig
  pub stan : NatsStreamingConfig
  pub logging : LoggingConfig
  pub monitoring : MonitoringConfig
  pub connect : List ConnectorConfig

abbrev pub empty_tls : TlsConf
empty_tls = record { key = ""; cert = ""; root = "" }

-- Go's zero value, which a connector's configuration starts from.
abbrev pub empty_mq : MqConfig
empty_mq = record {
  connection_name = "";
  channel_name = "";
  queue_manager = "";
  user_name = "";
  password = "";
  key_repository = "";
  certificate_label = "";
  ssl_peer_name = "";
}

abbrev pub empty_connector : ConnectorConfig
empty_connector = record {
  id = "";
  kind = "";
  channel = "";
  durable_name = "";
  start_at_sequence = pos 0;
  start_at_time = pos 0;
  subject = "";
  nats_queue = "";
  mq = empty_mq;
  topic = "";
  queue = "";
  use_polling = false;
  incoming_buffer_size = pos 0;
  incoming_message_wait = pos 0;
  exclude_headers = false;
}

-- The two defaults of the streaming library are arguments.
unfoldable pub default_bridge_config : String → ℤ → BridgeConfig
default_bridge_config discover_prefix max_inflight = record {
  reconnect_interval = pos 5000;
  nats = record {
    servers = [];
    connect_timeout = pos 0;
    reconnect_wait = pos 0;
    max_reconnects = pos 0;
    tls = empty_tls;
    username = "";
    password = "";
    creds_file = "";
  };
  stan = record {
    cluster_id = "";
    client_id = "";
    pub_ack_wait = pos 5000;
    discover_prefix = discover_prefix;
    max_pub_acks_inflight = max_inflight;
    connect_wait = pos 2000;
  };
  logging = record { time = true; debug = false; trace = false; colors = true; pid = false };
  monitoring = record { http_host = ""; http_port = pos 0; https_port = pos 0; tls = empty_tls };
  connect = [];
}
