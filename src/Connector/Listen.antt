-- ===== src/Connector/Listen.antt =====
-- The message handlers of connector.go: the MQ callback of the listening connectors, and the
-- callbacks of the NATS and the streaming subscription. Each runs under the connector's lock.
use nats_mq.Prelude.{
  ℕ, String, Bool, not, List, [], ◌∷◌, Option, none, some, length, is_set, if◌then◌else◌,
}
use nats_mq.Prelude.Int.{ℤ, eqb_ℤ}
use nats_mq.Error.{Error, MqReturn, Outcome, done, fails, panics, mq_callback}
use nats_mq.Float.{FloatOps}
use nats_mq.Message.Data.{Value}
use nats_mq.Stats.{ConnectorStats, add_message_in, add_message_out, add_request_time}
use nats_mq.Convert.Mqmd.{Mqmd}
use nats_mq.Convert.Properties.{MessageHandle, HandleCalls}
use nats_mq.Convert.Reply.{ReplyToInfo}
use nats_mq.Convert.Messages.{Libraries, mq_to_nats_message, nats_to_mq_message}

-- What a handler does to the outside: it publishes to NATS or to a streaming channel, puts to MQ,
-- commits or backs out the unit of work, acknowledges, and reports an error to the bridge.
pub data Effect : Type 0 where
  publish : String → List ℕ → Effect
  publish_request : String → String → List ℕ → Effect
  publish_stan : String → List ℕ → Effect
  put : Mqmd → Option (List (String × Value)) → Option (List ℕ) → Effect
  commit back ack : Effect
  connector_error : Error → Effect

-- What a handler leaves: the statistics, and the effects in their order.
pub record Handled : Type 0 where
  pub stats : ConnectorStats
  pub effects : List Effect

-- The constants of the MQ library that the callback tests.
pub record CallbackCodes : Type 0 where
  pub mqcc_ok : ℤ
  pub mqrc_no_msg_available : ℤ

-- stanMessageHandler and natsMessageHandler: what they publish.
pub data Publisher : Type 0 where
  to_channel to_subject : String → Publisher

unfoldable pub publication : Publisher → List ℕ → String → Effect
publication (to_channel channel) msg reply_to = publish_stan channel msg
publication (to_subject subject) msg reply_to =
    if is_set reply_to then publish_request subject reply_to msg else publish subject msg

-- What a message from MQ brings: the error of the call, whether it is an event call, the descriptor,
-- the handle and the body, and how the publication, the commit and the clock will answer.
pub record FromMq : Type 0 where
  pub mq_err : Option MqReturn
  pub event_call : Bool
  pub md : Option Mqmd
  pub handle : Option MessageHandle
  pub buffer : List ℕ
  pub publish_error : Option Error
  pub commit_error : Option Error
  pub elapsed : ℕ

-- mqErr != nil && mqErr.MQCC != MQCC_OK
abbrev pub failure : CallbackCodes → Option MqReturn → Option MqReturn
failure codes none = none
failure codes (some r) = if eqb_ℤ r.mqcc codes.mqcc_ok then none else some r

abbrev pub report : CallbackCodes → ConnectorStats → MqReturn → Handled
report codes stats r = record {
  stats = stats;
  effects =
      if eqb_ℤ r.mqrc codes.mqrc_no_msg_available then [] else connector_error (mq_callback r) ∷ [];
}

abbrev pub data_length : Option (List ℕ) → ℕ
data_length none = 0
data_length (some b) = length b

module _ (lib : Libraries) (f : FloatOps) (info : ReplyToInfo) where
  -- AddMessageOut and AddRequestTime after a message went through; `none` is a panic.
  abbrev pub counted : ConnectorStats → ℕ → ℕ → List Effect → Option Handled
  counted stats size elapsed effects =
      elim (add_request_time f elapsed (add_message_out size stats)) [
        | none ↦ none
        | some stats' ↦ some (record { stats = stats'; effects = effects })
      ]

  abbrev pub commit_or_report : ConnectorStats → Effect → List ℕ → ℕ → Option Error → Option Handled
  commit_or_report stats sent msg elapsed (some e) =
      some (record { stats = stats; effects = sent ∷ commit ∷ connector_error e ∷ [] })
  commit_or_report stats sent msg elapsed none =
      counted stats (length msg) elapsed (sent ∷ commit ∷ [])

  abbrev pub publish_or_back :
      ConnectorStats → Effect → List ℕ → FromMq → Option Error → Option Handled
  publish_or_back stats sent msg m (some e) =
      some (record { stats = stats; effects = sent ∷ back ∷ [] })
  publish_or_back stats sent msg m none = commit_or_report stats sent msg m.elapsed m.commit_error

  abbrev pub on_converted :
      Publisher → ConnectorStats → FromMq → Outcome (List ℕ × String) → Option Handled
  on_converted to stats m panics = none
  on_converted to stats m (fails e) = some (record { stats = stats; effects = back ∷ [] })
  on_converted to stats m (done (msg, reply_to)) =
      publish_or_back stats (publication to msg reply_to) msg m m.publish_error

  abbrev pub on_message : Publisher → Bool → ConnectorStats → FromMq → Option Handled
  on_message to exclude_headers stats m =
      on_converted to (add_message_in (length m.buffer) stats) m
        (mq_to_nats_message lib info m.md m.handle m.buffer (length m.buffer) (not exclude_headers))

  -- The function that createMQCallback returns, while the connector holds a queue manager. `none` is
  -- a panic.
  unfoldable pub mq_callback_function :
      CallbackCodes → Publisher → Bool → ConnectorStats → FromMq → Option Handled
  unfolding publication
  mq_callback_function codes to exclude_headers stats m = elim (failure codes m.mq_err) [
    | some r ↦ some (report codes stats r)
    | none ↦
        if m.event_call
        then some (record { stats = stats; effects = [] })
        else on_message to exclude_headers stats m
  ]

  abbrev pub on_put :
      ConnectorStats → Effect → List Effect → Option (List ℕ) → ℕ → Option Error → Option Handled
  on_put stats sent acks body elapsed (some e) =
      some (record { stats = stats; effects = sent ∷ [] })
  on_put stats sent acks body elapsed none =
      counted stats (elim body [ none ↦ 0 | some b ↦ length b ]) elapsed (sent ∷ acks)

  abbrev pub on_decoded :
      ConnectorStats
      → List Effect
      → ℕ
      → Option Error
      → Outcome (Mqmd × Option (List (String × Value)) × Option (List ℕ))
      → Option Handled
  on_decoded stats acks elapsed put_error panics = none
  on_decoded stats acks elapsed put_error (fails e) = some (record { stats = stats; effects = [] })
  on_decoded stats acks elapsed put_error (done (md, handle, body)) =
      on_put stats (put md handle body) acks body elapsed put_error

  -- The callback of subscribeToNATS, while the connector holds a queue manager.
  unfoldable pub nats_callback :
      HandleCalls
      → Bool
      → ConnectorStats
      → Option (List ℕ)
      → String
      → ℕ
      → Option Error
      → Option Handled
  nats_callback calls exclude_headers stats body reply elapsed put_error =
      on_decoded (add_message_in (data_length body) stats) [] elapsed put_error
        (nats_to_mq_message lib info calls body reply (not exclude_headers))

  -- The callback of subscribeToChannel, which acknowledges what it has put.
  unfoldable pub stan_callback :
      HandleCalls → Bool → ConnectorStats → Option (List ℕ) → ℕ → Option Error → Option Handled
  stan_callback calls exclude_headers stats body elapsed put_error =
      on_decoded (add_message_in (data_length body) stats) (ack ∷ []) elapsed put_error
        (nats_to_mq_message lib info calls body "" (not exclude_headers))
