-- ===== src/Connector/Steps.antt =====
-- The methods of BridgeConnector that the connectors share (connector.go), and
-- ConnectToQueueManager (connect.go).
use nats_mq.Prelude.{
  ℕ, ◌==◌, String, Bool, true, false, not, ◌&&◌, List, [], ◌∷◌, ◌++◌, Option, none, some, is_set,
  if◌then◌else◌,
}
use nats_mq.Prelude.Int.{ℤ, pos, negsuc, eqb_ℤ}
use nats_mq.Error.{Error, MqReturn, Result, ok, err, mq, not_streaming}
use nats_mq.Conf.{ConnectorConfig, MqConfig}
use nats_mq.Stats.{add_connect, add_disconnect}
use nats_mq.Connector.Services.{
  ConnectOptions, queue_target, topic_target, OpenMode, StanOption, durable_name, start_at_time,
  start_with_last_received, start_at_sequence, deliver_all_available, manual_ack_mode, Listener,
  callback, polling, Services, connected, opened, subscribed_topic, subscribed, listening, stopped,
  unsubscribed, closed, disconnected, Exec, ◌>>=◌, ◌>>◌, pure, from, fail_if, update, act, require,
  get, when_held, when,
}

abbrev pub connect_options : MqConfig → ConnectOptions
connect_options c = record {
  security = if is_set c.user_name then some (c.user_name, c.password) else none;
  tls =
      if is_set c.key_repository
      then some (c.key_repository, c.certificate_label, c.ssl_peer_name)
      else none;
  channel_name = c.channel_name;
  connection_name = c.connection_name;
}

-- The start of a streaming subscription: the time takes precedence over the sequence.
abbrev pub start_position : ℤ → StanOption
start_position (pos n) = if 0 == n then deliver_all_available else start_at_sequence n
start_position (negsuc n) = if 0 == n then start_with_last_received else deliver_all_available

unfoldable pub stan_options : ConnectorConfig → List StanOption
stan_options c =
    (if is_set c.durable_name then durable_name c.durable_name ∷ [] else [])
    ++ (if eqb_ℤ c.start_at_time (pos 0)
        then start_position c.start_at_sequence
        else start_at_time c.start_at_time)
      ∷ manual_ack_mode
      ∷ []

module _ (s : Services) where
  -- A warning that TLS was initialised before is no failure if a message handle can be created.
  abbrev pub double_check : ℕ → MqReturn → Bool → Result ℕ → Result ℕ
  double_check q r false mh = err (mq r)
  double_check q r true (ok h) = ok q
  double_check q r true (err e) = err (mq r)

  abbrev pub connx_result : ℕ × Option MqReturn → Result ℕ
  connx_result (q, none) = ok q
  connx_result (q, some r) =
      double_check q r (eqb_ℤ r.mqcc s.mqcc_warning && eqb_ℤ r.mqrc s.mqrc_ssl_already_initialized)
        (s.crt_mh q)

  unfoldable pub connect_to_queue_manager : MqConfig → Result ℕ
  connect_to_queue_manager c = connx_result (s.connx c.queue_manager (connect_options c))

  unfoldable pub connect_to_mq : Exec ℕ
  connect_to_mq = do
    c ← get
    q ← from (connect_to_queue_manager c.config.mq)
    act (connected q)
    update (λ c. record c { qmgr = some q })
    pure q

  unfoldable pub connect_to_queue : ℕ → String → OpenMode → Exec ℕ
  connect_to_queue q name mode = do
    h ← from (s.open_object q (queue_target name mode))
    act (opened h)
    pure h

  unfoldable pub connect_to_topic : ℕ → String → Exec ℕ
  connect_to_topic q name = do
    h ← from (s.open_object q (topic_target name))
    act (opened h)
    pure h

  -- The topic object and the subscription.
  unfoldable pub subscribe_to_topic : ℕ → String → Exec (ℕ × ℕ)
  subscribe_to_topic q name = do
    hs ← from (s.sub_topic q name)
    act (opened hs.0)
    act (subscribed_topic hs.1)
    pure hs

  unfoldable pub set_up_callback : ℕ → ℕ → Exec Listener
  set_up_callback q h = do
    mh ← from (s.crt_mh q)
    fail_if (s.register_cb h)
    fail_if (s.ctl_start q)
    act (listening mh)
    pure (callback mh)

  unfoldable pub set_up_polling : ℕ → Exec Listener
  set_up_polling q = do mh ← from (s.crt_mh q); act (listening mh); pure (polling mh)

  unfoldable pub set_up_listener : Bool → ℕ → ℕ → Exec Listener
  unfolding set_up_callback set_up_polling
  set_up_listener use_polling q h = if use_polling then set_up_polling q else set_up_callback q h

  unfoldable pub subscribe_to_nats : String → String → Exec ℕ
  subscribe_to_nats subject nats_queue = do
    h ← from (
        if is_set nats_queue
        then s.nats_queue_subscribe subject nats_queue
        else s.nats_subscribe subject)
    act (subscribed h)
    pure h

  unfoldable pub subscribe_to_channel : Exec ℕ
  unfolding stan_options
  subscribe_to_channel = do
    require s.stan_connected not_streaming
    c ← get
    h ← from (s.stan_subscribe c.config.channel (stan_options c.config))
    act (subscribed h)
    pure h

-- What the Shutdown methods share. Each step passes over a nil handle.
-- if mq.shutdownCB != nil { mq.shutdownCB() and log an error; mq.shutdownCB = nil }
unfoldable pub stop_listener : Exec (Unit {0})
stop_listener = do
  c ← get
  when_held c.listener λ l. do act (stopped l); update (λ c. record c { listener = none })

-- if mq.sub != nil { mq.sub.Unsubscribe(); mq.sub = nil }
unfoldable pub unsubscribe : Exec (Unit {0})
unsubscribe = do
  c ← get
  when_held c.sub λ h. do act (unsubscribed h); update (λ c. record c { sub = none })

-- The same, for a subscription that is not durable.
unfoldable pub unsubscribe_not_durable : Exec (Unit {0})
unfolding unsubscribe
unsubscribe_not_durable = do c ← get; when (not (is_set c.config.durable_name)) unsubscribe

abbrev close_held : Services → Option ℕ → Exec (Option Error)
close_held s none r = (ok none, r)
close_held s (some h) r = (ok (s.close_object h), record r { trace = closed h ∷ r.trace })

-- target := mq.target; mq.target = nil; if target != nil { err = target.Close(0) }
unfoldable pub close_target : Services → Exec (Option Error)
close_target s = do c ← get; update (λ c. record c { target = none }); close_held s c.target

-- if sub != nil { sub.Close(0) with its error logged }, for the subscription of a topic.
unfoldable pub close_sub : Option ℕ → Exec (Unit {0})
close_sub held = when_held held λ h. act (closed h)

-- if mq.qMgr != nil { mq.qMgr.Disc() with its error logged or ignored; mq.qMgr = nil }
unfoldable pub disconnect : Exec (Unit {0})
disconnect = do
  c ← get
  when_held c.qmgr λ q. do act (disconnected q); update (λ c. record c { qmgr = none })

unfoldable pub count_connect : Exec (Unit {0})
count_connect = update (λ c. record c { stats = add_connect c.stats })

unfoldable pub count_disconnect : Exec (Unit {0})
count_disconnect = update (λ c. record c { stats = add_disconnect c.stats })
