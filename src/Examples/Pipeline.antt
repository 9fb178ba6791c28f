-- ===== src/Examples/Pipeline.antt =====
-- What tock prints of a message that tick sent through the bridge.
use nats_mq.Prelude.{
  ℕ, ◌≡◌, ◌≤◌, refl, ap, ◌∙◌, String, true, List, [], ◌∷◌, none, some, length, reverse,
}
use nats_mq.Prelude.Int.{ℤ, eqb_ℤ}
use nats_mq.Error.{ok, done}
use nats_mq.Message.Data.{
  Value, string, int, BridgeMessage, empty_header, new_bridge_message, encode,
  decode_bridge_message,
}
use nats_mq.Message.Property.{
  property_of, set_property, find, get_int64_property, get_string_property,
}
use nats_mq.Prelude.Dict.{lookup, insert}
use nats_mq.Convert.Bytes.{copy_byte_array}
use nats_mq.Convert.Header.{map_mqmd_to_header, map_header_to_mqmd}
use nats_mq.Message.RoundTrip.{with_properties}
use nats_mq.Message.Wire.{travel}
use nats_mq.Convert.Bytes.Padding.{copy_byte_array-copy_byte_array_if_not_empty}
use nats_mq.Convert.Bytes.RoundTrip.{NonzeroHead}
use nats_mq.Convert.Mqmd.{Mqmd}
use nats_mq.Convert.Properties.{MessageHandle, HandleCalls}
use nats_mq.Convert.Reply.{ReplyToInfo, reply_to_nats, reply_to_mq, reply_channel_to_mq, set_reply}
use nats_mq.Convert.Messages.{Libraries, mq_to_nats_message, nats_to_mq_message}
use nats_mq.Convert.Journey.{stored_all, arrived_all, sent_with}
use nats_mq.Convert.Relay.{put_mqmd, mq_to_nats_message-nats_to_mq_message}
use nats_mq.Examples.{shown, printed, publishes, tick_message, tick, tock}

-- The properties that tick sets.
abbrev pub tick_properties : ℤ → String → List (String × Value)
tick_properties counter time = ("counter", int counter) ∷ ("time", string time) ∷ []

abbrev pub ticked : List ℕ → List ℕ → BridgeMessage
ticked body id = record (new_bridge_message body) {
  header = record empty_header { correl_id = id };
}

-- Encode returns bytes from which DecodeBridgeMessage makes the message as it travels.
abbrev pub Carries : Libraries → BridgeMessage → List ℕ → Type 0
Carries lib msg b =
    (lib.codec.encode_bytes msg ≡ ok b) × (lib.codec.decode_bytes b ≡ ok (travel lib.floats msg))

module _ (lib : Libraries) (info : ReplyToInfo) where
  -- The message that arrives in tock's queue: as it was put, but for the fields of the descriptor other
  -- than the correlation id, which the queue manager may set.
  pub record IsGotten (body id : List ℕ) (counter : ℤ) (time : String) (md : Mqmd)
      (h : MessageHandle) : Type 0 where
    pub correl_id : md.correl_id ≡ (put_mqmd lib info (ticked body id) "").correl_id
    pub properties : h.properties ≡ arrived_all lib.floats (tick_properties counter time)
    pub over : eqb_ℤ h.end.mqrc lib.mq.mqrc_property_not_available ≡ true

  tick_lem :
      (body id b : List ℕ) (counter : ℤ) (time : String)
      → lib.codec.encode_bytes
          (with_properties (ticked body id) (stored_all (tick_properties counter time)))
        ≡ ok b
      → tick lib.codec body id counter time ≡ publishes (shown body counter time id) b
  unfolding tick tick_message printed set_property property_of insert lookup find get_int64_property
      get_string_property encode new_bridge_message
  tick_lem body id b counter time e = rw e refl

  tock_lem :
      (body b : List ℕ) (counter : ℤ) (time : String) (md : Mqmd)
      → lib.codec.decode_bytes b
        ≡ ok (
            travel lib.floats
              (sent_with lib info md (arrived_all lib.floats (tick_properties counter time)) body))
      → tock lib.codec (some b) ≡ ok (shown body counter time (copy_byte_array md.correl_id))
  unfolding tock printed property_of lookup find get_int64_property get_string_property
      decode_bridge_message new_bridge_message map_mqmd_to_header
  tock_lem body b counter time md d = rw (d, tock) refl

  correl_id_lem :
      (body id : List ℕ)
      → NonzeroHead id
      → NonzeroHead (reverse id)
      → length id ≤ lib.mq.mq_correl_id_length
      → copy_byte_array (put_mqmd lib info (ticked body id) "").correl_id ≡ id
  unfolding reply_to_mq reply_channel_to_mq set_reply map_header_to_mqmd
  correl_id_lem body id head last fits =
      copy_byte_array-copy_byte_array_if_not_empty id lib.mq.new_mqmd.correl_id
        lib.mq.mq_correl_id_length head last fits

  -- A message of tick, whose correlation id fits into a descriptor and neither starts nor ends with a
  -- zero byte, taken by a connector with headers from NATS to MQ, got there with its body, correlation
  -- id and properties, and taken by another with headers to NATS: tick publishes it, both conversions
  -- succeed, and tock prints the body, the counter, the time and the id that tick printed. This holds
  -- if the codec carries both messages, and the queue manager creates the handle and takes every
  -- property.
  pub tock-tick :
      (calls : HandleCalls) (body id b b' : List ℕ) (counter : ℤ) (time : String) (md : Mqmd)
      (h : MessageHandle)
      → NonzeroHead id
      → NonzeroHead (reverse id)
      → length id ≤ lib.mq.mq_correl_id_length
      → calls.crt_mh ≡ none
      → ((name : String) (v : Value) → calls.set_mp name v ≡ none)
      → IsGotten body id counter time md h
      → let ps = tick_properties counter time in
        let qs = arrived_all lib.floats ps in
        Carries lib (with_properties (ticked body id) (stored_all ps)) b
        → Carries lib (sent_with lib info md qs body) b'
        → (tick lib.codec body id counter time ≡ publishes (shown body counter time id) b)
          × (nats_to_mq_message lib info calls (some b) "" true
              ≡ done (put_mqmd lib info (ticked body id) "", some qs, some body))
          × (mq_to_nats_message lib info (some md) (some h) body (length body) true
              ≡ done (b', (reply_to_nats info (some md)).0))
          × (tock lib.codec (some b') ≡ ok (shown body counter time id))
  unfolding new_bridge_message lookup
  tock-tick calls body id b b' counter time md h head last fits made accepts got out back =
      let ps = tick_properties counter time in
      let relayed =
        mq_to_nats_message-nats_to_mq_message lib info calls (ticked body id) ps "" md h b b'
          (refl, (refl, tt)) (tt, (tt, tt)) made accepts out.1 got.properties got.over back.0
          back.1 in
      let same : copy_byte_array md.correl_id ≡ id =
        ap copy_byte_array got.correl_id ∙ correl_id_lem body id head last fits in
      (
        tick_lem body id b counter time out.0,
        relayed.0,
        relayed.1,
        tock_lem body b' counter time md back.1 ∙ ap (λ i. ok (shown body counter time i)) same,
      )
