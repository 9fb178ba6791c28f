-- ===== src/Convert/Journey.antt =====
-- A message with properties and a reply address that goes from MQ to NATS and back, through both
-- conversions of nats-mq/core/msgconv.go.
use mathlib.Core.List.{append_assoc, append-nil}
use native.Mathlib.Nat.{le_refl}
pub use nats_mq.Convert.Order.{stored_all, AreNew, AllTravel, arrived_all}
use nats_mq.Convert.Order.{AreNew-Perm, AllTravel-Perm, arrived_all-Perm}
use mathlib.Core.List.Permᴰ.{Permᴰ}
use nats_mq.Prelude.{
  ℕ, ◌≡◌, refl, subst, String, true, List, [], ◌∷◌, ◌++◌, none, some, length, take-length,
}
use nats_mq.Prelude.Int.{eqb_ℤ}
use nats_mq.Prelude.Dict.{Dict, lookup, insert-new, lookup-append_new}
use nats_mq.Error.{MqReturn, ok, done}
use nats_mq.Message.Data.{
  Value, Property, BridgeMessage, new_bridge_message, encode, decode_bridge_message,
}
use nats_mq.Message.Property.{FloatConv, find}
use nats_mq.Message.RoundTrip.{stored, with_properties, set_property_lem}
use nats_mq.Message.Wire.{
  travel, travel_dict, arrived, property_of-Travels, find-travel, get_typed_property-arrived,
}
use nats_mq.Convert.Mqmd.{Mqmd, MqConstants}
use nats_mq.Convert.Header.{map_mqmd_to_header, map_header_to_mqmd}
use nats_mq.Convert.Header.RoundTrip.{
  ZeroIds, IdsSurvive, renewed, map_header_to_mqmd-map_mqmd_to_header,
}
use nats_mq.Convert.Properties.{
  MessageHandle, HandleCalls, set_outcome, copy_loop, copy_message_properties, put_loop,
  map_properties_to_handle,
}
use nats_mq.Convert.Reply.{ReplyToInfo, reply_to_nats, reply_to_mq, reply_channel_to_mq, set_reply}
use nats_mq.Convert.Messages.{Libraries, with_header, mq_to_nats_message, nats_to_mq_message}

-- Each property of the list is in the map.
abbrev pub AllStored : Dict Property → List (String × Value) → Type 0
AllStored d [] = Unit
AllStored d ((name, v) ∷ ps) = (lookup name d ≡ some (stored v)) × AllStored d ps

pub AreNew-AllStored :
    (d : Dict Property) (ps : List (String × Value))
    → AreNew d ps
    → AllStored (d ++ stored_all ps) ps
AreNew-AllStored d [] h = tt
AreNew-AllStored d ((name, v) ∷ ps) h = (
  lookup-append_new name (stored v) d (stored_all ps) h.0,
  subst (λ e. AllStored e ps) (append_assoc d ((name, stored v) ∷ []) (stored_all ps))
      (AreNew-AllStored (d ++ (name, stored v) ∷ []) ps h.1),
)

module _ (fc : FloatConv) where
  copy_loop-stored_all :
      (c : MqConstants) (ps : List (String × Value)) (end : MqReturn) (msg : BridgeMessage)
      (d : Dict Property)
      → eqb_ℤ end.mqrc c.mqrc_property_not_available ≡ true
      → AllTravel fc ps
      → AreNew d ps
      → copy_loop c ps end (with_properties msg d) ≡ done (with_properties msg (d ++ stored_all ps))
  unfolding copy_loop
  copy_loop-stored_all c [] end msg d over t h = rw (over, append-nil d) refl
  copy_loop-stored_all c ((name, v) ∷ ps) end msg d over t h =
      let p = stored v in
      let put =
        set_property_lem (with_properties msg d) name v refl (property_of-Travels fc v t.0) in
      let rest = copy_loop-stored_all c ps end msg (d ++ (name, p) ∷ []) over t.1 h.1 in
      let last = insert-new name p d h.0 in
      rw (put, last, set_outcome, rest, append_assoc d ((name, p) ∷ []) (stored_all ps)) refl

  put_loop-arrived_all :
      (calls : HandleCalls) (msg : BridgeMessage) (ps held : List (String × Value))
      {d : Dict Property}
      → ((name : String) (v : Value) → calls.set_mp name v ≡ none)
      → msg.properties ≡ some d
      → AllTravel fc ps
      → AllStored d ps
      → put_loop fc calls (travel fc msg) (travel_dict fc (stored_all ps)) held
        ≡ done (held ++ arrived_all fc ps)
  unfolding put_loop
  put_loop-arrived_all calls msg [] held accepts e t h = rw (append-nil held) refl
  put_loop-arrived_all calls msg ((name, v) ∷ ps) held accepts e t h =
      let found : find msg name ≡ some (stored v) = unfold find in rw e h.0 in
      let read =
        get_typed_property-arrived fc (travel fc msg) name v (stored v) t.0
          (property_of-Travels fc v t.0) (find-travel fc msg name (stored v) found) in
      let put = accepts name (arrived fc v) in
      let more = (name, arrived fc v) ∷ [] in
      let rest = put_loop-arrived_all calls msg ps (held ++ more) accepts e t.1 h.1 in
      rw (read, put, rest, append_assoc held more (arrived_all fc ps)) refl

module _ (lib : Libraries) (info : ReplyToInfo) where
  -- The message that is sent for a descriptor, a body and properties.
  abbrev pub sent_with : Mqmd → List (String × Value) → List ℕ → BridgeMessage
  sent_with md ps body =
      with_properties (with_header lib info body (reply_to_nats info (some md)).1 md)
        (stored_all ps)

  -- The reply queue and its manager that the other end finds.
  abbrev pub reply_found : Mqmd → String × String
  reply_found md =
      let (subject, channel) = reply_to_nats info (some md) in
      reply_channel_to_mq info channel (reply_to_mq info subject)

  pub all_to_nats :
      (md : Mqmd) (h : MessageHandle) (body b : List ℕ)
      → AreNew [] h.properties
      → AllTravel lib.floats h.properties
      → eqb_ℤ h.end.mqrc lib.mq.mqrc_property_not_available ≡ true
      → lib.codec.encode_bytes (sent_with md h.properties body) ≡ ok b
      → mq_to_nats_message lib info (some md) (some h) body (length body) true
        ≡ done (b, (reply_to_nats info (some md)).0)
  unfolding mq_to_nats_message copy_message_properties encode new_bridge_message map_mqmd_to_header
      reply_to_nats
  all_to_nats md h body b new t over e =
      let channel = (reply_to_nats info (some md)).1 in
      let copied =
        copy_loop-stored_all lib.floats lib.mq h.properties h.end
          (with_header lib info body channel md) [] over t new in
      rw (take-length (length body) body (le_refl (length body)), copied, e) refl

  pub all_to_handle :
      (calls : HandleCalls) (msg : BridgeMessage) (ps : List (String × Value))
      → calls.crt_mh ≡ none
      → ((name : String) (v : Value) → calls.set_mp name v ≡ none)
      → AreNew [] ps
      → AllTravel lib.floats ps
      → map_properties_to_handle lib.floats calls
          (travel lib.floats (with_properties msg (stored_all ps)))
        ≡ done (arrived_all lib.floats ps)
  unfolding map_properties_to_handle
  all_to_handle calls msg [] made accepts new t = rw made refl
  all_to_handle calls msg ((name, v) ∷ ps) made accepts new t = rw made (
      put_loop-arrived_all lib.floats calls (with_properties msg (stored_all ((name, v) ∷ ps)))
        ((name, v) ∷ ps) [] accepts refl t (AreNew-AllStored [] ((name, v) ∷ ps) new))

  -- With headers, a message from MQ whose property names differ and whose values are in the range of
  -- the types that SetProperty gives them, converted to NATS and back under the reply subject that it
  -- was given: no error, the same body, the same properties in an order that is left open (an integer
  -- without a type of its own as an int64, a byte as an int8), and the descriptor of the original, but
  -- for two things: its version, message type, expiry, persistence, backout count, date and time are
  -- those of a new descriptor, and its reply queue and manager are those to which the registered
  -- connectors lead from its subject or channel. This holds if the inquiry of the properties ends
  -- properly, the byte fields survive the trimming, the encoding succeeds, decoding gives the message
  -- with its properties in whatever order, and the queue manager creates the handle and takes every
  -- property.
  pub nats_to_mq_message-mq_to_nats_message :
      (calls : HandleCalls) (md : Mqmd) (h : MessageHandle) (ps : List (String × Value))
      (body b : List ℕ)
      → ZeroIds lib.mq
      → IdsSurvive lib.mq md
      → AreNew [] h.properties
      → AllTravel lib.floats h.properties
      → eqb_ℤ h.end.mqrc lib.mq.mqrc_property_not_available ≡ true
      → calls.crt_mh ≡ none
      → ((name : String) (v : Value) → calls.set_mp name v ≡ none)
      → lib.codec.encode_bytes (sent_with md h.properties body) ≡ ok b
      → Permᴰ h.properties ps
      → lib.codec.decode_bytes b ≡ ok (travel lib.floats (sent_with md ps body))
      → let subject = (reply_to_nats info (some md)).0 in
        (mq_to_nats_message lib info (some md) (some h) body (length body) true ≡ done (b, subject))
        × (nats_to_mq_message lib info calls (some b) subject true
            ≡ done (
              set_reply (reply_found md) (renewed lib.mq md),
              some (arrived_all lib.floats ps),
              some body,
            ))
        × Permᴰ (arrived_all lib.floats h.properties) (arrived_all lib.floats ps)
  unfolding nats_to_mq_message decode_bridge_message new_bridge_message
  nats_to_mq_message-mq_to_nats_message calls md h ps body b z s new t over made accepts e order
        decoded =
      let back : map_header_to_mqmd lib.mq (sent_with md ps body).header ≡ renewed lib.mq md =
        unfold map_header_to_mqmd map_mqmd_to_header in
        map_header_to_mqmd-map_mqmd_to_header lib.mq md z s in
      let new' = AreNew-Perm [] order new in
      let t' = AllTravel-Perm lib.floats order t in
      (
        all_to_nats md h body b new t over e,
        rw (decoded, all_to_handle calls (sent_with md ps body) ps made accepts new' t', back) refl,
        arrived_all-Perm lib.floats order,
      )
