-- ===== src/Convert/Relay.antt =====
-- A message that goes from NATS to MQ and from there back to NATS, through both conversions of
-- nats-mq/core/msgconv.go.
use nats_mq.Prelude.{ℕ, ◌≡◌, refl, String, true, List, [], ◌∷◌, ◌++◌, none, some, length, arith}
use nats_mq.Prelude.Int.{eqb_ℤ}
use nats_mq.Prelude.Dict.{Dict, lookup, absent_of_append, append-absent}
use nats_mq.Error.{ok, done}
use nats_mq.Message.Data.{
  Value, int, uint8, other, Property, BridgeMessage, new_bridge_message, decode_bridge_message,
}
use nats_mq.Message.Property.{FloatConv, find, get_typed_property}
use nats_mq.Message.RoundTrip.{stored, with_properties}
use nats_mq.Message.Wire.{
  travel, Travels, arrived, property_of-Travels, find-travel, get_typed_property-arrived,
}
use nats_mq.Convert.Mqmd.{Mqmd}
use nats_mq.Convert.Header.{map_header_to_mqmd}
use nats_mq.Convert.Properties.{MessageHandle, HandleCalls}
use nats_mq.Convert.Reply.{ReplyToInfo, reply_to_nats, reply_to_mq, reply_channel_to_mq, set_reply}
use nats_mq.Convert.Messages.{Libraries, mq_to_nats_message, nats_to_mq_message}
use nats_mq.Convert.Journey.{
  stored_all, AreNew, AllStored, AreNew-AllStored, AllTravel, arrived_all, sent_with, all_to_nats,
  all_to_handle,
}

module _ (fc : FloatConv) where
  Travels-arrived : (v : Value) → Travels fc v → Travels fc (arrived fc v)
  Travels-arrived (uint8 n) t = t
  Travels-arrived (other x) t = absurd t
  Travels-arrived v t = ground arith

  arrived-arrived : (v : Value) → arrived fc (arrived fc v) ≡ arrived fc v
  arrived-arrived (int z) = refl
  arrived-arrived v = ground arith

  AllTravel-arrived_all :
      (ps : List (String × Value)) → AllTravel fc ps → AllTravel fc (arrived_all fc ps)
  AllTravel-arrived_all [] t = tt
  AllTravel-arrived_all ((name, v) ∷ ps) t = (Travels-arrived v t.0, AllTravel-arrived_all ps t.1)

  -- The receiver reads each property of the list.
  abbrev pub AllRead : BridgeMessage → List (String × Value) → Type 0
  AllRead msg [] = Unit
  AllRead msg ((name, v) ∷ ps) =
      (get_typed_property fc msg name ≡ some (arrived fc v, true)) × AllRead msg ps

  AreNew-arrived_all :
      (d d' : Dict Property) (ps : List (String × Value))
      → ((name : String) → lookup name d ≡ none → lookup name d' ≡ none)
      → AreNew d ps
      → AreNew d' (arrived_all fc ps)
  AreNew-arrived_all d d' [] same h = tt
  AreNew-arrived_all d d' ((name, v) ∷ ps) same h = (
    same name h.0,
    AreNew-arrived_all (d ++ (name, stored v) ∷ []) (d' ++ (name, stored (arrived fc v)) ∷ []) ps
        (λ j e.
          let (before, ne) = absent_of_append name j (stored v) d e in
          append-absent name j (stored (arrived fc v)) d' (same j before) ne)
        h.1,
  )

  AllStored-AllRead :
      (msg : BridgeMessage) (ps : List (String × Value)) {d : Dict Property}
      → msg.properties ≡ some d
      → AllTravel fc ps
      → AllStored d (arrived_all fc ps)
      → AllRead (travel fc msg) ps
  AllStored-AllRead msg [] e t h = tt
  AllStored-AllRead msg ((name, v) ∷ ps) e t h =
      let w = arrived fc v in
      let again = Travels-arrived v t.0 in
      let found : find msg name ≡ some (stored w) = unfold find in rw e h.0 in
      let read =
        get_typed_property-arrived fc (travel fc msg) name w (stored w) again
          (property_of-Travels fc w again) (find-travel fc msg name (stored w) found) in
      (rw (← arrived-arrived v) read, AllStored-AllRead msg ps e t.1 h.1)

module _ (lib : Libraries) (info : ReplyToInfo) where
  -- The descriptor that is put to MQ for a message that came from NATS under a reply subject.
  abbrev pub put_mqmd : BridgeMessage → String → Mqmd
  put_mqmd msg reply =
      set_reply (reply_channel_to_mq info msg.header.reply_to_channel (reply_to_mq info reply))
        (map_header_to_mqmd lib.mq msg.header)

  from_nats :
      (calls : HandleCalls) (msg : BridgeMessage) (ps : List (String × Value)) (reply : String)
      (b : List ℕ)
      → AreNew [] ps
      → AllTravel lib.floats ps
      → calls.crt_mh ≡ none
      → ((name : String) (v : Value) → calls.set_mp name v ≡ none)
      → lib.codec.decode_bytes b ≡ ok (travel lib.floats (with_properties msg (stored_all ps)))
      → nats_to_mq_message lib info calls (some b) reply true
        ≡ done (put_mqmd msg reply, some (arrived_all lib.floats ps), some msg.body)
  unfolding nats_to_mq_message decode_bridge_message
  from_nats calls msg ps reply b new t made accepts d =
      rw (d, all_to_handle lib info calls msg ps made accepts new t) refl

  -- With headers, a message that a NATS client sends, with properties of different names whose values
  -- are in the range of the types that SetProperty gives them: it is put to MQ with its body, its
  -- properties as they arrive and the descriptor of its header; and the message that MQ later gets with
  -- that body, those properties and any descriptor is sent to NATS, where DecodeBridgeMessage gives a
  -- message with the body, the header of that descriptor, and every property readable with its value (an
  -- integer without a type of its own as an int64, a byte as an int8). This holds if the codec carries
  -- both messages, the encoding of the second succeeds, the queue manager creates the handle and takes
  -- every property, and the inquiry of the properties ends properly.
  pub mq_to_nats_message-nats_to_mq_message :
      (calls : HandleCalls) (msg : BridgeMessage) (ps : List (String × Value)) (reply : String)
      (md : Mqmd) (h : MessageHandle) (b b' : List ℕ)
      → AreNew [] ps
      → AllTravel lib.floats ps
      → calls.crt_mh ≡ none
      → ((name : String) (v : Value) → calls.set_mp name v ≡ none)
      → lib.codec.decode_bytes b ≡ ok (travel lib.floats (with_properties msg (stored_all ps)))
      → h.properties ≡ arrived_all lib.floats ps
      → eqb_ℤ h.end.mqrc lib.mq.mqrc_property_not_available ≡ true
      → let sent = sent_with lib info md (arrived_all lib.floats ps) msg.body in
        lib.codec.encode_bytes sent ≡ ok b'
        → lib.codec.decode_bytes b' ≡ ok (travel lib.floats sent)
        → (nats_to_mq_message lib info calls (some b) reply true
            ≡ done (put_mqmd msg reply, some (arrived_all lib.floats ps), some msg.body))
          × (mq_to_nats_message lib info (some md) (some h) msg.body (length msg.body) true
              ≡ done (b', (reply_to_nats info (some md)).0))
          × (received : BridgeMessage) × (decode_bridge_message lib.codec (some b') ≡ ok received)
          × (received.body ≡ msg.body)
          × (received.header ≡ sent.header)
          × AllRead lib.floats received ps
  unfolding decode_bridge_message new_bridge_message
  mq_to_nats_message-nats_to_mq_message calls msg ps reply md h b b' new t made accepts d held over
        e d' =
      let qs = arrived_all lib.floats ps in
      let sent = sent_with lib info md qs msg.body in
      let new' = AreNew-arrived_all lib.floats [] [] ps (λ name e. e) new in
      let t' = AllTravel-arrived_all lib.floats ps t in
      (
        from_nats calls msg ps reply b new t made accepts d,
        all_to_nats lib info md h msg.body b' (rw held new') (rw held t') over (rw held e),
        travel lib.floats sent,
        d',
        refl,
        refl,
        AllStored-AllRead lib.floats sent ps refl t (AreNew-AllStored [] qs new'),
      )
