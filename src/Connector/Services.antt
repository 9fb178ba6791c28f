-- ===== src/Connector/Services.antt =====
-- The state of a connector, the services that it calls, and the actions that it takes. The services
-- (the MQ library, NATS, NATS streaming) are not part of the repository: what they answer during one
-- operation is a parameter of the operation, and what was asked of them is recorded in its trace.
use nats_mq.Prelude.{ℕ, String, Bool, true, false, List, ◌∷◌, Option, none, some}
use nats_mq.Prelude.Int.{ℤ}
use nats_mq.Error.{Error, MqReturn, Result, ok, err}
use nats_mq.Conf.{ConnectorConfig}
use nats_mq.Stats.{ConnectorStats}

-- The options of ConnectToQueueManager: user and password, key repository and certificate label with
-- the peer name of the TLS channel, and the client channel's name and connection.
pub record ConnectOptions : Type 0 where
  pub security : Option (String × String)
  pub tls : Option (String × String × String)
  pub channel_name : String
  pub connection_name : String

pub data OpenMode : Type 0 where
  input_shared output : OpenMode

-- The object that is opened or subscribed to.
pub data MqTarget : Type 0 where
  queue_target : String → OpenMode → MqTarget
  topic_target : String → MqTarget

-- The start options of a streaming subscription, in the order of the option list.
pub data StanOption : Type 0 where
  durable_name : String → StanOption
  start_at_time : ℤ → StanOption
  start_with_last_received : StanOption
  start_at_sequence : ℕ → StanOption
  deliver_all_available : StanOption
  manual_ack_mode : StanOption

-- How a listener was set up: with MQ callbacks or with a polling loop, and its message handle.
pub data Listener : Type 0 where
  callback polling : ℕ → Listener

-- The fields of BridgeConnector and of the eight structs that embed it. `target` is the queue or the
-- topic, `mq_sub` the MQ subscription of a topic, `sub` the NATS or streaming subscription, and
-- `listener` the shutdown callback; handles are numbers, and `none` is nil.
pub record Connector : Type 0 where
  pub config : ConnectorConfig
  pub stats : ConnectorStats
  pub qmgr : Option ℕ
  pub target : Option ℕ
  pub mq_sub : Option ℕ
  pub sub : Option ℕ
  pub listener : Option Listener

-- What the services answer during one operation.
pub record Services : Type 0 where
  pub check_nats : Bool
  pub check_stan : Bool
  pub stan_connected : Bool
  pub connx : String → ConnectOptions → ℕ × Option MqReturn
  pub mqcc_warning : ℤ
  pub mqrc_ssl_already_initialized : ℤ
  pub open_object : ℕ → MqTarget → Result ℕ
  pub sub_topic : ℕ → String → Result (ℕ × ℕ)
  pub crt_mh : ℕ → Result ℕ
  pub register_cb : ℕ → Option Error
  pub ctl_start : ℕ → Option Error
  pub nats_subscribe : String → Result ℕ
  pub nats_queue_subscribe : String → String → Result ℕ
  pub stan_subscribe : String → List StanOption → Result ℕ
  pub close_object : ℕ → Option Error

-- What an operation does to the outside.
pub data Action : Type 0 where
  connected opened subscribed_topic subscribed listening : ℕ → Action
  stopped : Listener → Action
  unsubscribed closed disconnected : ℕ → Action

-- The trace holds the latest action first.
pub record Run : Type 0 where
  pub conn : Connector
  pub trace : List Action

-- A method under the connector's lock. What was written before an error stays written.
abbrev pub Exec : Type 0 → Type 0
Exec A = Run → Result A × Run

abbrev pub after : {A B : Type 0} → Result A × Run → (A → Exec B) → Result B × Run
after (ok a, r) f = f a r
after (err e, r) f = (err e, r)

infixl 5 ◌>>=◌ ◌>>◌
abbrev pub ◌>>=◌ : {A B : Type 0} → Exec A → (A → Exec B) → Exec B
◌>>=◌ m f r = after (m r) f

abbrev pub ◌>>◌ : {B : Type 0} → Exec (Unit {0}) → Exec B → Exec B
m >> k = m >>= λ _. k

abbrev pub pure : {A : Type 0} → A → Exec A
pure a r = (ok a, r)

abbrev pub from : {A : Type 0} → Result A → Exec A
from x r = (x, r)

abbrev pub fail_if : Option Error → Exec (Unit {0})
fail_if none r = (ok tt, r)
fail_if (some e) r = (err e, r)

abbrev pub update : (Connector → Connector) → Exec (Unit {0})
update f r = (ok tt, record r { conn = f r.conn })

abbrev pub act : Action → Exec (Unit {0})
act a r = (ok tt, record r { trace = a ∷ r.trace })

abbrev pub require : Bool → Error → Exec (Unit {0})
require true e r = (ok tt, r)
require false e r = (err e, r)

abbrev pub get : Exec Connector
get r = (ok r.conn, r)

-- `if x != nil { ... }`
abbrev pub when_held {ℓ} : {A : Type ℓ} → Option A → (A → Exec (Unit {0})) → Exec (Unit {0})
when_held none m r = (ok tt, r)
when_held (some a) m r = m a r

-- `if b { ... }`
abbrev pub when : Bool → Exec (Unit {0}) → Exec (Unit {0})
when true m r = m r
when false m r = (ok tt, r)
