-- ===== src/Connector/Create.antt =====
-- The Connector interface of connector.go: dispatch on the kind of connector, CreateConnector and the
-- connectors' constructors.
use nats_mq.Prelude.{String, Option, none, some, ◌<>◌, is_set, str_eq, if◌then◌else◌}
use nats_mq.Error.{Result, ok, err, unknown_connector}
use nats_mq.Float.{FloatOps}
use nats_mq.Conf
use nats_mq.Conf.{ConnectorConfig}
use nats_mq.Convert.Reply.{ReplyToInfo, register_reply_info}
use nats_mq.Stats.{new_connector_stats}
use nats_mq.Connector.Services.{Connector, Services, Exec}
use nats_mq.Connector.Kinds.{
  start_queue2nats, shutdown_queue2nats, check_connections_queue2nats, start_queue2stan,
  shutdown_queue2stan, check_connections_queue2stan, start_nats2queue, shutdown_nats2queue,
  check_connections_nats2queue, start_nats2topic, shutdown_nats2topic, check_connections_nats2topic,
  start_stan2queue, shutdown_stan2queue, check_connections_stan2queue, start_stan2topic,
  shutdown_stan2topic, check_connections_stan2topic, start_topic2nats, shutdown_topic2nats,
  check_connections_topic2nats, start_topic2stan, shutdown_topic2stan, check_connections_topic2stan,
}

pub data Kind : Type 0 where
  queue2nats queue2stan nats2queue nats2topic stan2queue stan2topic topic2nats topic2stan : Kind

unfoldable pub start : Kind → Services → Exec (Unit {0})
unfolding start_queue2nats start_queue2stan start_nats2queue start_nats2topic start_stan2queue
    start_stan2topic start_topic2nats start_topic2stan
start queue2nats s = start_queue2nats s
start queue2stan s = start_queue2stan s
start nats2queue s = start_nats2queue s
start nats2topic s = start_nats2topic s
start stan2queue s = start_stan2queue s
start stan2topic s = start_stan2topic s
start topic2nats s = start_topic2nats s
start topic2stan s = start_topic2stan s

unfoldable pub shutdown : Kind → Services → Exec (Unit {0})
unfolding shutdown_queue2nats shutdown_queue2stan shutdown_nats2queue shutdown_nats2topic
    shutdown_stan2queue shutdown_stan2topic shutdown_topic2nats shutdown_topic2stan
shutdown queue2nats s = shutdown_queue2nats s
shutdown queue2stan s = shutdown_queue2stan s
shutdown nats2queue s = shutdown_nats2queue s
shutdown nats2topic s = shutdown_nats2topic s
shutdown stan2queue s = shutdown_stan2queue s
shutdown stan2topic s = shutdown_stan2topic s
shutdown topic2nats s = shutdown_topic2nats s
shutdown topic2stan s = shutdown_topic2stan s

unfoldable pub check_connections : Kind → Services → Exec (Unit {0})
unfolding check_connections_queue2nats check_connections_queue2stan check_connections_nats2queue
    check_connections_nats2topic check_connections_stan2queue check_connections_stan2topic
    check_connections_topic2nats check_connections_topic2stan
check_connections queue2nats s = check_connections_queue2nats s
check_connections queue2stan s = check_connections_queue2stan s
check_connections nats2queue s = check_connections_nats2queue s
check_connections nats2topic s = check_connections_nats2topic s
check_connections stan2queue s = check_connections_stan2queue s
check_connections stan2topic s = check_connections_stan2topic s
check_connections topic2nats s = check_connections_topic2nats s
check_connections topic2stan s = check_connections_topic2stan s

-- The switch of CreateConnector on the configured type.
unfoldable pub kind_of : String → Option Kind
kind_of t =
    if str_eq t Conf.queue2nats_type
    then some queue2nats
    else if str_eq t Conf.queue2stan_type
    then some queue2stan
    else if str_eq t Conf.nats2queue_type
    then some nats2queue
    else if str_eq t Conf.nats2topic_type
    then some nats2topic
    else if str_eq t Conf.stan2queue_type
    then some stan2queue
    else if str_eq t Conf.stan2topic_type
    then some stan2topic
    else if str_eq t Conf.topic2nats_type
    then some topic2nats
    else if str_eq t Conf.topic2stan_type
    then some topic2stan
    else none

-- The name that a connector's constructor gives it.
unfoldable pub connector_name : Kind → ConnectorConfig → String
connector_name queue2nats c = "Queue:" <> c.queue <> " to NATS:" <> c.subject
connector_name queue2stan c = "Queue:" <> c.queue <> " to STAN:" <> c.channel
connector_name nats2queue c = "NATS:" <> c.subject <> " to Queue:" <> c.queue
connector_name nats2topic c = "NATS:" <> c.subject <> " to Topic:" <> c.topic
connector_name stan2queue c = "STAN:" <> c.channel <> " to Queue:" <> c.queue
connector_name stan2topic c = "STAN:" <> c.channel <> " to Topic:" <> c.topic
connector_name topic2nats c = "MQ:" <> c.topic <> " to NATS:" <> c.subject
connector_name topic2stan c = "MQ:" <> c.topic <> " to Stan:" <> c.channel

-- The description under which CreateConnector registers its configuration.
unfoldable pub reply_key : Kind → ConnectorConfig → String
reply_key queue2nats c = "S:" <> c.subject
reply_key queue2stan c = "C:" <> c.channel
reply_key nats2queue c = "Q:" <> c.queue <> "@" <> c.mq.queue_manager
reply_key nats2topic c = "T:" <> c.topic <> "@" <> c.mq.queue_manager
reply_key stan2queue c = "Q:" <> c.queue <> "@" <> c.mq.queue_manager
reply_key stan2topic c = "T:" <> c.topic <> "@" <> c.mq.queue_manager
reply_key topic2nats c = "S:" <> c.subject
reply_key topic2stan c = "C:" <> c.channel

module _ (f : FloatOps) (nuid : String) where
  -- `nuid` is what nuid.Next() returns in this call.
  unfoldable pub init : ConnectorConfig → String → Connector
  init config name = record {
    config = config;
    stats = record (new_connector_stats f) {
      name = name;
      id = if is_set config.id then config.id else nuid;
    };
    qmgr = none;
    target = none;
    mq_sub = none;
    sub = none;
    listener = none;
  }

  abbrev created :
      ReplyToInfo → ConnectorConfig → Option Kind → Result (Kind × Connector × ReplyToInfo)
  created info c none = err (unknown_connector c.kind)
  created info c (some k) =
      ok (k, init c (connector_name k c), register_reply_info (reply_key k c) c info)

  -- The connector with its kind, and the reply-to information after the call.
  unfoldable pub create_connector :
      ReplyToInfo → ConnectorConfig → Result (Kind × Connector × ReplyToInfo)
  create_connector info c = created info c (kind_of c.kind)
