-- ===== src/Connector/Kinds.antt =====
-- Start, Shutdown and CheckConnections of the eight connectors, one group for each of the files
-- queue2nats.go, queue2stan.go, nats2queue.go, nats2topic.go, stan2queue.go, stan2topic.go,
-- topic2nats.go and topic2stan.go of nats-mq/core.
use nats_mq.Prelude.{ℕ, none, some}
use nats_mq.Error.{requires_nats, requires_stan}
use nats_mq.Connector.Services.{
  input_shared, output, Services, closed, Exec, ◌>>=◌, ◌>>◌, fail_if, update, act, require, get,
  when_held,
}
use nats_mq.Connector.Steps.{
  connect_to_mq, connect_to_queue, connect_to_topic, subscribe_to_topic, set_up_listener,
  subscribe_to_nats, subscribe_to_channel, stop_listener, unsubscribe, unsubscribe_not_durable,
  close_target, close_sub, disconnect, count_connect, count_disconnect,
}

unfoldable pub require_nats : Services → Exec (Unit {0})
require_nats s = do c ← get; require s.check_nats (requires_nats c.stats.name)

unfoldable pub require_stan : Services → Exec (Unit {0})
require_stan s = do c ← get; require s.check_stan (requires_stan c.stats.name)

abbrev set_target : ℕ → Exec (Unit {0})
set_target h = update (λ c. record c { target = some h })

abbrev set_mq_sub : ℕ → Exec (Unit {0})
set_mq_sub h = update (λ c. record c { mq_sub = some h })

abbrev set_sub : ℕ → Exec (Unit {0})
set_sub h = update (λ c. record c { sub = some h })

module _ (s : Services) where
  unfoldable pub start_queue2nats : Exec (Unit {0})
  start_queue2nats = do
    require_nats s
    q ← connect_to_mq s
    c ← get
    h ← connect_to_queue s q c.config.queue input_shared
    set_target h
    l ← set_up_listener s c.config.use_polling q h
    update (λ c. record c { listener = some l })
    count_connect

  unfoldable pub shutdown_queue2nats : Exec (Unit {0})
  shutdown_queue2nats = do count_disconnect; stop_listener; close_error ← close_target s; disconnect

  unfoldable pub check_connections_queue2nats : Exec (Unit {0})
  check_connections_queue2nats = require_nats s

  unfoldable pub start_queue2stan : Exec (Unit {0})
  start_queue2stan = do
    require_stan s
    q ← connect_to_mq s
    c ← get
    h ← connect_to_queue s q c.config.queue input_shared
    set_target h
    l ← set_up_listener s c.config.use_polling q h
    update (λ c. record c { listener = some l })
    count_connect

  unfoldable pub shutdown_queue2stan : Exec (Unit {0})
  shutdown_queue2stan = do count_disconnect; stop_listener; close_error ← close_target s; disconnect

  unfoldable pub check_connections_queue2stan : Exec (Unit {0})
  check_connections_queue2stan = require_stan s

  unfoldable pub start_nats2queue : Exec (Unit {0})
  start_nats2queue = do
    require_nats s
    q ← connect_to_mq s
    c ← get
    h ← connect_to_queue s q c.config.queue output
    set_target h
    n ← subscribe_to_nats s c.config.subject c.config.nats_queue
    set_sub n
    count_connect

  unfoldable pub shutdown_nats2queue : Exec (Unit {0})
  shutdown_nats2queue = do
    count_disconnect
    unsubscribe
    close_error ← close_target s
    disconnect
    fail_if close_error

  unfoldable pub check_connections_nats2queue : Exec (Unit {0})
  check_connections_nats2queue = require_nats s

  unfoldable pub start_nats2topic : Exec (Unit {0})
  start_nats2topic = do
    require_nats s
    q ← connect_to_mq s
    c ← get
    h ← connect_to_topic s q c.config.topic
    set_target h
    n ← subscribe_to_nats s c.config.subject c.config.nats_queue
    set_sub n
    count_connect

  unfoldable pub shutdown_nats2topic : Exec (Unit {0})
  shutdown_nats2topic = do
    count_disconnect
    unsubscribe
    close_error ← close_target s
    disconnect
    fail_if close_error

  unfoldable pub check_connections_nats2topic : Exec (Unit {0})
  check_connections_nats2topic = require_nats s

  unfoldable pub start_stan2queue : Exec (Unit {0})
  start_stan2queue = do
    require_stan s
    q ← connect_to_mq s
    c ← get
    h ← connect_to_queue s q c.config.queue output
    set_target h
    n ← subscribe_to_channel s
    set_sub n
    count_connect

  unfoldable pub shutdown_stan2queue : Exec (Unit {0})
  shutdown_stan2queue = do
    count_disconnect
    unsubscribe_not_durable
    close_error ← close_target s
    disconnect
    fail_if close_error

  unfoldable pub check_connections_stan2queue : Exec (Unit {0})
  check_connections_stan2queue = require_stan s

  unfoldable pub start_stan2topic : Exec (Unit {0})
  start_stan2topic = do
    require_stan s
    q ← connect_to_mq s
    c ← get
    h ← connect_to_topic s q c.config.topic
    set_target h
    n ← subscribe_to_channel s
    set_sub n
    count_connect

  unfoldable pub shutdown_stan2topic : Exec (Unit {0})
  shutdown_stan2topic = do
    count_disconnect
    unsubscribe_not_durable
    close_error ← close_target s
    disconnect
    fail_if close_error

  unfoldable pub check_connections_stan2topic : Exec (Unit {0})
  check_connections_stan2topic = require_stan s

  unfoldable pub start_topic2nats : Exec (Unit {0})
  start_topic2nats = do
    require_nats s
    q ← connect_to_mq s
    c ← get
    hs ← subscribe_to_topic s q c.config.topic
    set_target hs.0
    set_mq_sub hs.1
    l ← set_up_listener s c.config.use_polling q hs.0
    update (λ c. record c { listener = some l })
    count_connect

  unfoldable pub shutdown_topic2nats : Exec (Unit {0})
  shutdown_topic2nats = do
    count_disconnect
    c ← get
    when_held c.target λ h. do
      update (λ c. record c { target = none; mq_sub = none })
      stop_listener
      close_sub c.mq_sub
      act (closed h)
      disconnect

  unfoldable pub check_connections_topic2nats : Exec (Unit {0})
  check_connections_topic2nats = require_nats s

  unfoldable pub start_topic2stan : Exec (Unit {0})
  start_topic2stan = do
    require_stan s
    q ← connect_to_mq s
    c ← get
    hs ← subscribe_to_topic s q c.config.topic
    set_target hs.0
    set_mq_sub hs.1
    l ← set_up_listener s c.config.use_polling q hs.0
    update (λ c. record c { listener = some l })
    count_connect

  unfoldable pub shutdown_topic2stan : Exec (Unit {0})
  shutdown_topic2stan = do
    count_disconnect
    c ← get
    when_held c.target λ h. do
      update (λ c. record c { target = none; mq_sub = none })
      stop_listener
      close_sub c.mq_sub
      act (closed h)
      disconnect

  unfoldable pub check_connections_topic2stan : Exec (Unit {0})
  check_connections_topic2stan = require_stan s
