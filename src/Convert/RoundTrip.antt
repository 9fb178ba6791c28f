-- ===== src/Convert/RoundTrip.antt =====
-- A message that goes from MQ to NATS and back to MQ, and when the conversions panic.
use nats_mq.Prelude.{
  ℕ, ◌≡◌, ◌≢◌, String, Bool, true, false, List, [], ◌∷◌, Option, none, some, length, take-length,
  arith,
}
use native.Mathlib.Nat.{le_refl}
use nats_mq.Error.{MqReturn, ok, done, panics, >>=-ne-panics, lift-ne-panics}
use nats_mq.Message.Data.{Value, BridgeMessage, new_bridge_message, encode, decode_bridge_message}
use nats_mq.Message.Wire.{travel}
use nats_mq.Message.Property.{set_property}
use nats_mq.Convert.Mqmd.{Mqmd, MqConstants}
use nats_mq.Convert.Header.{map_mqmd_to_header, map_header_to_mqmd}
use nats_mq.Convert.Header.RoundTrip.{
  ZeroIds, IdsSurvive, renewed, map_header_to_mqmd-map_mqmd_to_header,
}
use nats_mq.Convert.Properties.{
  MessageHandle, HandleCalls, set_outcome, copy_loop, copy_message_properties,
  map_properties_to_handle,
}
use nats_mq.Convert.Reply.{ReplyToInfo, reply_to_nats, reply_to_mq, reply_channel_to_mq, set_reply}
use nats_mq.Convert.Messages.{Libraries, with_header, mq_to_nats_message, nats_to_mq_message}

module _ (lib : Libraries) (info : ReplyToInfo) where
  -- The message that is sent for a descriptor and a body without properties.
  abbrev pub sent_message : Mqmd → List ℕ → BridgeMessage
  sent_message md body = with_header lib info body "" md

  to_nats :
      (md : Mqmd) (body b : List ℕ)
      → reply_to_nats info (some md) ≡ ("", "")
      → lib.codec.encode_bytes (sent_message md body) ≡ ok b
      → mq_to_nats_message lib info (some md) none body (length body) true ≡ done (b, "")
  unfolding mq_to_nats_message copy_message_properties encode
  to_nats md body b no_reply e =
      rw (no_reply, take-length (length body) body (le_refl (length body)), e)

  header_back :
      (md : Mqmd) (body : List ℕ)
      → ZeroIds lib.mq
      → IdsSurvive lib.mq md
      → map_header_to_mqmd lib.mq (sent_message md body).header ≡ renewed lib.mq md
  unfolding map_header_to_mqmd map_mqmd_to_header
  header_back md body z s = map_header_to_mqmd-map_mqmd_to_header lib.mq md z s

  back_to_mq :
      (calls : HandleCalls) (md : Mqmd) (body b : List ℕ)
      → calls.crt_mh ≡ none
      → lib.codec.decode_bytes b ≡ ok (travel lib.floats (sent_message md body))
      → nats_to_mq_message lib info calls (some b) "" true
        ≡ done (map_header_to_mqmd lib.mq (sent_message md body).header, some [], some body)
  unfolding nats_to_mq_message decode_bridge_message map_properties_to_handle reply_to_mq
      reply_channel_to_mq set_reply new_bridge_message
  back_to_mq calls md body b made d = rw (d, made)

  -- With headers, a message from MQ without properties, whose reply queue is not registered, converted
  -- to NATS and back: no error, the same body, and the descriptor of the original but for version,
  -- type, expiry, persistence, backout count, date and time, if the byte fields survive the trimming, the encoding succeeds, the
  -- codec carries the message and the queue manager creates a handle.
  pub mq_nats_mq :
      (calls : HandleCalls) (md : Mqmd) (body b : List ℕ)
      → ZeroIds lib.mq
      → IdsSurvive lib.mq md
      → reply_to_nats info (some md) ≡ ("", "")
      → calls.crt_mh ≡ none
      → lib.codec.encode_bytes (sent_message md body) ≡ ok b
      → ((sent : List ℕ)
          → lib.codec.encode_bytes (sent_message md body) ≡ ok sent
          → lib.codec.decode_bytes sent ≡ ok (travel lib.floats (sent_message md body)))
      → (mq_to_nats_message lib info (some md) none body (length body) true ≡ done (b, ""))
        × (nats_to_mq_message lib info calls (some b) "" true
            ≡ done (renewed lib.mq md, some [], some body))
  mq_nats_mq calls md body b z s no_reply made e carries = (
    to_nats md body b no_reply e,
    rw (← header_back md body z s) (back_to_mq calls md body b made (carries b e)),
  )

set_outcome-keeps_map :
    (msg : BridgeMessage) (name : String) (v : Value)
    → msg.properties ≢ none
    → (set_outcome (set_property msg name v) ≢ panics)
      × ((msg' : BridgeMessage)
          → set_outcome (set_property msg name v) ≡ done msg'
          → msg'.properties ≢ none)
unfolding set_property
set_outcome-keeps_map msg name v h = ground arith

copy_loop-ne-panics :
    (c : MqConstants) (ps : List (String × Value)) (end : MqReturn) (msg : BridgeMessage)
    → msg.properties ≢ none
    → copy_loop c ps end msg ≢ panics
unfolding copy_loop
copy_loop-ne-panics c [] end msg h = ground arith
copy_loop-ne-panics c ((name, v) ∷ ps) end msg h =
    let (safe, kept) = set_outcome-keeps_map msg name v h in
    >>=-ne-panics _ _ safe (λ msg' e. copy_loop-ne-panics c ps end msg' (kept msg' e))

module _ (lib : Libraries) (info : ReplyToInfo) where
  -- MQToNATSMessage does not panic on a message that has a descriptor, whatever its properties, its
  -- reply names and the headers setting are.
  pub mq_to_nats_message-ne-panics :
      (md : Mqmd) (handle : Option MessageHandle) (body : List ℕ) (n : ℕ) (with_headers : Bool)
      → mq_to_nats_message lib info (some md) handle body n with_headers ≢ panics
  unfolding mq_to_nats_message copy_message_properties encode new_bridge_message
  mq_to_nats_message-ne-panics md handle body n false = ground arith
  mq_to_nats_message-ne-panics md none body n true = ground arith
  mq_to_nats_message-ne-panics md (some h) body n true =
      >>=-ne-panics _ _ (copy_loop-ne-panics lib.mq h.properties h.end _ (λ p. cc))
        (λ msg e. >>=-ne-panics _ _ (lift-ne-panics (lib.codec.encode_bytes msg)) (λ b e'. λ p. cc))
