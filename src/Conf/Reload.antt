-- ===== src/Conf/Reload.antt =====
-- The bridge's own configuration, written out and loaded (nats-mq/conf/conf.go, nats-mq/conf/load.go).
use nats_mq.Prelude.{String, ◌≡◌, refl, Bool, List, [], ◌∷◌}
use nats_mq.Error.{done}
use nats_mq.Conf.{
  TlsConf, MonitoringConfig, LoggingConfig, MqConfig, NatsConfig, NatsStreamingConfig,
  ConnectorConfig, BridgeConfig, empty_connector,
}
use nats_mq.Conf.Schema.{text_elem, Prim}
use nats_mq.Conf.Scalars.{Conversions}
use nats_mq.Conf.Parse.{load_config_from_map}
use nats_mq.Conf.Types.{zero_fields, zero_slot}
use nats_mq.Conf.Print.{print_fields, HaveType, IsPrintableSlot, IsPrintable, ArePrintable}
use nats_mq.Conf.RoundTrip.{load_config_from_map-print_fields}
use nats_mq.Conf.Printable.{
  IsInt64, int-IsPrintable, text-IsPrintable, bool-IsPrintable, struct-IsPrintable,
  prims-IsPrintable, structs-IsPrintable, end-IsPrintable,
}
use nats_mq.Conf.Layout.{
  tls_fields, monitoring_fields, logging_fields, mq_fields, text_prims, nats_fields, stan_fields,
  connector_fields, connector_structs, bridge_fields,
}

pub record NatsInRange (c : NatsConfig) : Type 0 where
  pub connect_timeout : IsInt64 c.connect_timeout
  pub reconnect_wait : IsInt64 c.reconnect_wait
  pub max_reconnects : IsInt64 c.max_reconnects

pub record StanInRange (c : NatsStreamingConfig) : Type 0 where
  pub pub_ack_wait : IsInt64 c.pub_ack_wait
  pub max_pub_acks_inflight : IsInt64 c.max_pub_acks_inflight
  pub connect_wait : IsInt64 c.connect_wait

pub record ConnectorInRange (c : ConnectorConfig) : Type 0 where
  pub start_at_sequence : IsInt64 c.start_at_sequence
  pub start_at_time : IsInt64 c.start_at_time
  pub incoming_buffer_size : IsInt64 c.incoming_buffer_size
  pub incoming_message_wait : IsInt64 c.incoming_message_wait

abbrev pub AllInRange : List ConnectorConfig → Type 0
AllInRange [] = Unit
AllInRange (c ∷ cs) = ConnectorInRange c × AllInRange cs

-- Every integer is one of 64 bits.
pub record InRange (c : BridgeConfig) : Type 0 where
  pub reconnect_interval : IsInt64 c.reconnect_interval
  pub nats : NatsInRange c.nats
  pub stan : StanInRange c.stan
  pub http_port : IsInt64 c.monitoring.http_port
  pub https_port : IsInt64 c.monitoring.https_port
  pub connect : AllInRange c.connect

module _ (conv : Conversions) where
  tls_fields-IsPrintable : (c : TlsConf) → IsPrintable conv (tls_fields c)
  unfolding tls_fields
  tls_fields-IsPrintable c = text-IsPrintable conv _ _ _ refl refl (
      text-IsPrintable conv _ _ _ refl refl
        (text-IsPrintable conv _ _ _ refl refl (end-IsPrintable conv)))

  mq_fields-IsPrintable : (c : MqConfig) → IsPrintable conv (mq_fields c)
  unfolding mq_fields
  mq_fields-IsPrintable c = text-IsPrintable conv _ _ _ refl refl (
      text-IsPrintable conv _ _ _ refl refl (
        text-IsPrintable conv _ _ _ refl refl (
          text-IsPrintable conv _ _ _ refl refl (
            text-IsPrintable conv _ _ _ refl refl (
              text-IsPrintable conv _ _ _ refl refl (
                text-IsPrintable conv _ _ _ refl refl
                  (text-IsPrintable conv _ _ _ refl refl (end-IsPrintable conv))))))))

  logging_fields-IsPrintable : (c : LoggingConfig) → IsPrintable conv (logging_fields c)
  unfolding logging_fields
  logging_fields-IsPrintable c = bool-IsPrintable conv _ _ _ refl refl (
      bool-IsPrintable conv _ _ _ refl refl (
        bool-IsPrintable conv _ _ _ refl refl (
          bool-IsPrintable conv _ _ _ refl refl
            (bool-IsPrintable conv _ _ _ refl refl (end-IsPrintable conv)))))

  monitoring_fields-IsPrintable :
      (c : MonitoringConfig)
      → IsInt64 c.http_port
      → IsInt64 c.https_port
      → IsPrintable conv (monitoring_fields c)
  unfolding monitoring_fields
  monitoring_fields-IsPrintable c p q = text-IsPrintable conv _ _ _ refl refl (
      int-IsPrintable conv _ _ _ refl refl p (
        int-IsPrintable conv _ _ _ refl refl q (
          struct-IsPrintable conv _ _ _ refl refl (tls_fields-IsPrintable c.tls)
            (end-IsPrintable conv))))

  stan_fields-IsPrintable :
      (c : NatsStreamingConfig) → StanInRange c → IsPrintable conv (stan_fields c)
  unfolding stan_fields
  stan_fields-IsPrintable c h = text-IsPrintable conv _ _ _ refl refl (
      text-IsPrintable conv _ _ _ refl refl (
        int-IsPrintable conv _ _ _ refl refl h.pub_ack_wait (
          text-IsPrintable conv _ _ _ refl refl (
            int-IsPrintable conv _ _ _ refl refl h.max_pub_acks_inflight
              (int-IsPrintable conv _ _ _ refl refl h.connect_wait (end-IsPrintable conv))))))

  connector_fields-IsPrintable :
      (c : ConnectorConfig) → ConnectorInRange c → IsPrintable conv (connector_fields c)
  unfolding connector_fields
  connector_fields-IsPrintable c h = text-IsPrintable conv _ _ _ refl refl (
      text-IsPrintable conv _ _ _ refl refl (
        text-IsPrintable conv _ _ _ refl refl (
          text-IsPrintable conv _ _ _ refl refl (
            int-IsPrintable conv _ _ _ refl refl h.start_at_sequence (
              int-IsPrintable conv _ _ _ refl refl h.start_at_time (
                text-IsPrintable conv _ _ _ refl refl (
                  text-IsPrintable conv _ _ _ refl refl (
                    struct-IsPrintable conv _ _ _ refl refl (mq_fields-IsPrintable c.mq) (
                      text-IsPrintable conv _ _ _ refl refl (
                        text-IsPrintable conv _ _ _ refl refl (
                          bool-IsPrintable conv _ _ _ refl refl (
                            int-IsPrintable conv _ _ _ refl refl h.incoming_buffer_size (
                              int-IsPrintable conv _ _ _ refl refl h.incoming_message_wait (
                                bool-IsPrintable conv _ _ _ refl refl
                                  (end-IsPrintable conv)))))))))))))))

  text_prims-HaveType : (ss : List String) → HaveType text_elem (text_prims ss)
  text_prims-HaveType [] = tt
  text_prims-HaveType (s ∷ ss) = (tt, text_prims-HaveType ss)

  nats_fields-IsPrintable : (c : NatsConfig) → NatsInRange c → IsPrintable conv (nats_fields c)
  unfolding nats_fields
  nats_fields-IsPrintable c h =
      prims-IsPrintable conv _ _ _ _ refl refl (text_prims-HaveType c.servers) (
        int-IsPrintable conv _ _ _ refl refl h.connect_timeout (
          int-IsPrintable conv _ _ _ refl refl h.reconnect_wait (
            int-IsPrintable conv _ _ _ refl refl h.max_reconnects (
              struct-IsPrintable conv _ _ _ refl refl (tls_fields-IsPrintable c.tls) (
                text-IsPrintable conv _ _ _ refl refl (
                  text-IsPrintable conv _ _ _ refl refl
                    (text-IsPrintable conv _ _ _ refl refl (end-IsPrintable conv))))))))

  zero_fields-connector_fields :
      (c : ConnectorConfig) → zero_fields (connector_fields c) ≡ connector_fields empty_connector
  unfolding zero_slot connector_fields mq_fields
  zero_fields-connector_fields c = refl

  connector_structs-ArePrintable :
      (cs : List ConnectorConfig)
      → AllInRange cs
      → ArePrintable conv (connector_fields empty_connector) (connector_structs cs)
  unfolding connector_structs IsPrintableSlot
  connector_structs-ArePrintable [] h = tt
  connector_structs-ArePrintable (c ∷ cs) h = (
    zero_fields-connector_fields c,
    connector_fields-IsPrintable c h.0,
    connector_structs-ArePrintable cs h.1,
  )

  bridge_fields-IsPrintable : (c : BridgeConfig) → InRange c → IsPrintable conv (bridge_fields c)
  unfolding bridge_fields
  bridge_fields-IsPrintable c h = int-IsPrintable conv _ _ _ refl refl h.reconnect_interval (
      struct-IsPrintable conv _ _ _ refl refl (nats_fields-IsPrintable c.nats h.nats) (
        struct-IsPrintable conv _ _ _ refl refl (stan_fields-IsPrintable c.stan h.stan) (
          struct-IsPrintable conv _ _ _ refl refl (logging_fields-IsPrintable c.logging) (
            struct-IsPrintable conv _ _ _ refl refl
              (monitoring_fields-IsPrintable c.monitoring h.http_port h.https_port)
              (structs-IsPrintable conv _ _ _ _ refl refl
                (connector_structs-ArePrintable c.connect h.connect) (end-IsPrintable conv))))))

  -- Any configuration of the bridge whose integers have 64 bits, written out as a map and loaded into
  -- an empty configuration, in strict mode or not, gives every field of it back with no error.
  pub load_config_from_map-bridge_fields :
      (strict : Bool) (c : BridgeConfig)
      → InRange c
      → load_config_from_map conv strict
          (print_fields (bridge_fields c))
          (zero_fields (bridge_fields c))
        ≡ (done tt, bridge_fields c)
  load_config_from_map-bridge_fields strict c h =
      load_config_from_map-print_fields conv strict (bridge_fields c)
        (bridge_fields-IsPrintable c h)
