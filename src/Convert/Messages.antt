-- ===== src/Convert/Messages.antt =====
-- MQToNATSMessage and NATSToMQMessage of nats-mq/core/msgconv.go.
use nats_mq.Prelude.{ℕ, String, Bool, true, false, List, Option, none, some, take}
use nats_mq.Error.{Outcome, done, fails, panics, ◌>>=◌, lift, empty_message}
use nats_mq.Message.Data.{
  Value, BridgeMessage, Codec, new_bridge_message, decode_bridge_message, encode,
}
use nats_mq.Message.Property.{FloatConv}
use nats_mq.Convert.Mqmd.{Mqmd, MqConstants}
use nats_mq.Convert.Header.{map_mqmd_to_header, map_header_to_mqmd}
use nats_mq.Convert.Properties.{
  MessageHandle, HandleCalls, copy_message_properties, map_properties_to_handle,
}
use nats_mq.Convert.Reply.{ReplyToInfo, reply_to_nats, reply_to_mq, reply_channel_to_mq, set_reply}

-- The library calls that both conversions make.
pub record Libraries : Type 0 where
  pub mq : MqConstants
  pub codec : Codec
  pub floats : FloatConv

-- A nil descriptor is dereferenced only where the headers are mapped.
abbrev pub deref {ℓ} : {A : Type ℓ} → Option A → Outcome A
deref none = panics
deref (some a) = done a

module _ (lib : Libraries) (info : ReplyToInfo) where
  -- The message with the descriptor's header, before its properties are copied.
  abbrev pub with_header : List ℕ → String → Mqmd → BridgeMessage
  with_header body channel md = record (new_bridge_message body) {
    header = record (map_mqmd_to_header md) { reply_to_channel = channel };
  }

  -- `qmgr` says whether the queue manager passed is not nil, `length` is at most the length of the
  -- data. The result is the bytes for NATS and the reply subject.
  unfoldable pub mq_to_nats_message :
      Option Mqmd → Option MessageHandle → List ℕ → ℕ → Bool → Outcome (List ℕ × String)
  mq_to_nats_message mqmd handle body length false =
      done (take length body, (reply_to_nats info mqmd).0)
  mq_to_nats_message mqmd handle body length true = do
    md ← deref mqmd
    let (subject, channel) = reply_to_nats info mqmd
    msg ← copy_message_properties lib.mq handle (with_header (take length body) channel md)
    encoded ← lift (encode lib.codec msg)
    done (encoded, subject)

  -- `none` is nil data. The result is the descriptor, the handle's properties (`none` is EmptyHandle)
  -- and the body.
  unfoldable pub nats_to_mq_message :
      HandleCalls
      → Option (List ℕ)
      → String
      → Bool
      → Outcome (Mqmd × Option (List (String × Value)) × Option (List ℕ))
  nats_to_mq_message calls body reply_to false =
      done (set_reply (reply_to_mq info reply_to) lib.mq.new_mqmd, none, body)
  nats_to_mq_message calls none reply_to true = fails empty_message
  nats_to_mq_message calls (some body) reply_to true = do
    msg ← lift (decode_bridge_message lib.codec (some body))
    let reply = reply_channel_to_mq info msg.header.reply_to_channel (reply_to_mq info reply_to)
    held ← map_properties_to_handle lib.floats calls msg
    done (set_reply reply (map_header_to_mqmd lib.mq msg.header), some held, some msg.body)
