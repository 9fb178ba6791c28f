-- ===== src/Conf/Layout.antt =====
-- The structs of nats-mq/conf/conf.go and the Config of nats-mq/logging/logging.go, as reflection shows
-- them to the parser.
use nats_mq.Prelude.{String, Bool, true, List, [], ◌∷◌}
use nats_mq.Prelude.Int.{ℤ}
use nats_mq.Conf.{
  TlsConf, MonitoringConfig, LoggingConfig, MqConfig, NatsConfig, NatsStreamingConfig,
  ConnectorConfig, BridgeConfig, empty_connector,
}
use nats_mq.Conf.Schema.{
  bool_slot, int_slot, text_slot, prims_slot, structs_slot, struct_slot, text_elem, Prim, text_prim,
  Fields, no_fields, field, Structs, no_structs, struct,
}

-- A field of an int or int64, of a string, of a bool, and of a struct.
abbrev pub int_field : String → ℤ → Fields → Fields
int_field name z = field name true (int_slot 9223372036854775808 z)

abbrev pub text_field : String → String → Fields → Fields
text_field name s = field name true (text_slot s)

abbrev pub bool_field : String → Bool → Fields → Fields
bool_field name b = field name true (bool_slot b)

abbrev pub struct_field : String → Fields → Fields → Fields
struct_field name fs = field name true (struct_slot fs)

unfoldable pub tls_fields : TlsConf → Fields
tls_fields c =
    text_field "Key" c.key (text_field "Cert" c.cert (text_field "Root" c.root no_fields))

unfoldable pub monitoring_fields : MonitoringConfig → Fields
monitoring_fields c = text_field "HTTPHost" c.http_host (
    int_field "HTTPPort" c.http_port
      (int_field "HTTPSPort" c.https_port (struct_field "TLS" (tls_fields c.tls) no_fields)))

unfoldable pub logging_fields : LoggingConfig → Fields
logging_fields c = bool_field "Time" c.time (
    bool_field "Debug" c.debug (
      bool_field "Trace" c.trace (bool_field "Colors" c.colors (bool_field "PID" c.pid no_fields))))

unfoldable pub mq_fields : MqConfig → Fields
mq_fields c = text_field "ConnectionName" c.connection_name (
    text_field "ChannelName" c.channel_name (
      text_field "QueueManager" c.queue_manager (
        text_field "UserName" c.user_name (
          text_field "Password" c.password (
            text_field "KeyRepository" c.key_repository (
              text_field "CertificateLabel" c.certificate_label
                (text_field "SSLPeerName" c.ssl_peer_name no_fields)))))))

abbrev pub text_prims : List String → List Prim
text_prims [] = []
text_prims (s ∷ ss) = text_prim s ∷ text_prims ss

unfoldable pub nats_fields : NatsConfig → Fields
nats_fields c = field "Servers" true (prims_slot text_elem (text_prims c.servers)) (
    int_field "ConnectTimeout" c.connect_timeout (
      int_field "ReconnectWait" c.reconnect_wait (
        int_field "MaxReconnects" c.max_reconnects (
          struct_field "TLS" (tls_fields c.tls) (
            text_field "Username" c.username (
              text_field "Password" c.password (text_field "CredsFile" c.creds_file no_fields)))))))

unfoldable pub stan_fields : NatsStreamingConfig → Fields
stan_fields c = text_field "ClusterID" c.cluster_id (
    text_field "ClientID" c.client_id (
      int_field "PubAckWait" c.pub_ack_wait (
        text_field "DiscoverPrefix" c.discover_prefix (
          int_field "MaxPubAcksInflight" c.max_pub_acks_inflight
            (int_field "ConnectWait" c.connect_wait no_fields)))))

unfoldable pub connector_fields : ConnectorConfig → Fields
connector_fields c = text_field "ID" c.id (
    text_field "Type" c.kind (
      text_field "Channel" c.channel (
        text_field "DurableName" c.durable_name (
          int_field "StartAtSequence" c.start_at_sequence (
            int_field "StartAtTime" c.start_at_time (
              text_field "Subject" c.subject (
                text_field "NatsQueue" c.nats_queue (
                  struct_field "MQ" (mq_fields c.mq) (
                    text_field "Topic" c.topic (
                      text_field "Queue" c.queue (
                        bool_field "UsePolling" c.use_polling (
                          int_field "IncomingBufferSize" c.incoming_buffer_size (
                            int_field "IncomingMessageWait" c.incoming_message_wait
                              (bool_field "ExcludeHeaders" c.exclude_headers no_fields))))))))))))))

unfoldable pub connector_structs : List ConnectorConfig → Structs
connector_structs [] = no_structs
connector_structs (c ∷ cs) = struct (connector_fields c) (connector_structs cs)

unfoldable pub bridge_fields : BridgeConfig → Fields
bridge_fields c = int_field "ReconnectInterval" c.reconnect_interval (
    struct_field "NATS" (nats_fields c.nats) (
      struct_field "STAN" (stan_fields c.stan) (
        struct_field "Logging" (logging_fields c.logging) (
          struct_field "Monitoring" (monitoring_fields c.monitoring) (
            field "Connect" true
              (structs_slot (connector_fields empty_connector) (connector_structs c.connect))
              no_fields)))))
