-- ===== src/Connector/Lifecycle.antt =====
-- What Start and Shutdown guarantee of every kind of connector.
use nats_mq.Prelude.{◌≡◌, Bool, true, false, Option, none, some, arith, if◌then◌else◌}
use nats_mq.Error.{Error, ok, err}
use nats_mq.Stats.{add_connect}
use nats_mq.Connector.Services.{Connector, Services, Run}
use nats_mq.Connector.Steps.{
  connect_to_mq, connect_to_queue, connect_to_topic, subscribe_to_topic, set_up_listener,
  subscribe_to_nats, subscribe_to_channel, count_connect,
}
use nats_mq.Connector.Kinds.{require_nats, require_stan}
use nats_mq.Connector.Create.{Kind, queue2nats, queue2stan, topic2nats, topic2stan, start}

abbrev pub listens : Kind → Bool
listens queue2nats = true
listens queue2stan = true
listens topic2nats = true
listens topic2stan = true
listens _ = false

abbrev pub has {ℓ} : {A : Type ℓ} → Option A → Bool
has none = false
has (some a) = true

-- A started connector receives messages by a listener on MQ, or by a subscription.
abbrev pub attached : Kind → Connector → Bool
attached k c = if listens k then has c.listener else has c.sub

-- A Start that returns no error leaves the connector with a queue manager, its queue or topic, and a
-- listener or a subscription, marked connected, and counts one connect.
pub start-ok :
    (k : Kind) (s : Services) (r : Run)
    → (start k s r).0 ≡ ok tt
    → let c = (start k s r).1.conn in
      (has c.qmgr ≡ true)
      × (has c.target ≡ true)
      × (attached k c ≡ true)
      × (c.stats ≡ add_connect r.conn.stats)
unfolding start connect_to_mq connect_to_queue connect_to_topic subscribe_to_topic set_up_listener
    subscribe_to_nats subscribe_to_channel count_connect require_nats require_stan
start-ok queue2nats s r e = ground arith
start-ok k s r e = ground arith

-- A Start that returns an error leaves the statistics and the configuration as they were, so the
-- connector is not marked connected by it.
pub start-err :
    (k : Kind) (s : Services) (r : Run) (x : Error)
    → (start k s r).0 ≡ err x
    → let c = (start k s r).1.conn in (c.stats ≡ r.conn.stats) × (c.config ≡ r.conn.config)
unfolding start connect_to_mq connect_to_queue connect_to_topic subscribe_to_topic set_up_listener
    subscribe_to_nats subscribe_to_channel count_connect require_nats require_stan
start-err queue2nats s r x e = ground arith
start-err k s r x e = ground arith
