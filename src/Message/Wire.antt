-- ===== src/Message/Wire.antt =====
-- A message on the wire: Encode by the sender, DecodeBridgeMessage and GetTypedProperty by the
-- receiver. The codec is a parameter. Of it the source relies on this: MessagePack does not keep the
-- width of an integer or a float, and its options (SignedInteger, RawToString, WriteExt) make an
-- integer come back as an int64, a text as a string and bytes as a []byte.
use nats_mq.Prelude.{ℕ, String, ◌≡◌, refl, true, List, [], ◌∷◌, Option, none, some, arith, ◌<◌}
use nats_mq.Prelude.Int.{pos, Fits}
use nats_mq.Prelude.Dict.{Dict, lookup, insert}
use nats_mq.Error.{ok}
use nats_mq.Message.Data.{
  Value, null, int8, int16, int32, int64, int, uint8, uint16, uint32, uint64, float32, float64,
  other, Property, BridgeMessage, Codec, encode, decode_bridge_message,
}
use nats_mq.Message.Property.{FloatConv, property_of, set_property, find, get_typed_property}
use nats_mq.Message.Narrow.{wrap-Fits}
use nats_mq.Message.RoundTrip.{stored, with_properties, set_property_lem, find-insert_self}

module _ (fc : FloatConv) where
  -- What the codec makes of a value, if an integer is below 2 ^ 63.
  abbrev pub travel_value : Value → Value
  travel_value (int8 z) = int64 z
  travel_value (int16 z) = int64 z
  travel_value (int32 z) = int64 z
  travel_value (int z) = int64 z
  travel_value (uint8 n) = int64 (pos n)
  travel_value (uint16 n) = int64 (pos n)
  travel_value (uint32 n) = int64 (pos n)
  travel_value (uint64 n) = int64 (pos n)
  travel_value (float32 b) = float64 (fc.widen b)
  travel_value v = v

  abbrev pub travel_dict : Dict Property → Dict Property
  travel_dict [] = []
  travel_dict ((k, p) ∷ d) = (k, record p { value = travel_value p.value }) ∷ travel_dict d

  -- An empty map is left out of the encoding, and comes back as a nil map.
  abbrev pub travel_map : Option (Dict Property) → Option (Dict Property)
  travel_map none = none
  travel_map (some []) = none
  travel_map (some ((k, p) ∷ d)) = some (travel_dict ((k, p) ∷ d))

  abbrev pub travel : BridgeMessage → BridgeMessage
  travel msg = record msg { properties = travel_map msg.properties }

  -- A value that the receiver can read: in the range of the type that SetProperty gives it.
  abbrev pub Travels : Value → Type 0
  Travels (int8 z) = Fits 128 z
  Travels (int16 z) = Fits 32768 z
  Travels (int32 z) = Fits 2147483648 z
  Travels (uint8 n) = n < 128
  Travels (uint64 n) = n < 9223372036854775808
  Travels (float32 b) = fc.narrow (fc.widen b) ≡ b
  Travels (other t) = ⊥
  Travels _ = Unit

  -- The value that arrives: an int and the unsigned integers in the type that SetProperty gave them.
  abbrev pub arrived : Value → Value
  arrived (int z) = int64 z
  arrived (uint8 n) = int8 (pos n)
  arrived (uint16 n) = int64 (pos n)
  arrived (uint32 n) = int64 (pos n)
  arrived (uint64 n) = int64 (pos n)
  arrived v = v

  lookup-travel_dict :
      (d : Dict Property) (name : String) (p : Property)
      → lookup name d ≡ some p
      → lookup name (travel_dict d) ≡ some (record p { value = travel_value p.value })
  unfolding lookup
  lookup-travel_dict [] name p e = ground arith
  lookup-travel_dict ((k, q) ∷ d) name p e = ground (arith, lookup-travel_dict d name p)

  abbrev in_map : Option (Dict Property) → String → Option Property
  in_map o name = elim o [ none ↦ none | some d ↦ lookup name d ]

  in_map-travel_map :
      (o : Option (Dict Property)) (name : String) (p : Property)
      → in_map o name ≡ some p
      → in_map (travel_map o) name ≡ some (record p { value = travel_value p.value })
  unfolding lookup
  in_map-travel_map none name p e = cc
  in_map-travel_map (some []) name p e = cc
  in_map-travel_map (some ((k, q) ∷ d)) name p e = lookup-travel_dict ((k, q) ∷ d) name p e

  pub find-travel :
      (msg : BridgeMessage) (name : String) (p : Property)
      → find msg name ≡ some p
      → find (travel msg) name ≡ some (record p { value = travel_value p.value })
  unfolding find
  find-travel msg name p e = in_map-travel_map msg.properties name p e

  pub property_of-Travels : (v : Value) → Travels v → property_of v ≡ some (stored v)
  unfolding property_of
  property_of-Travels null r = refl
  property_of-Travels v r = ground arith

  pub get_typed_property-arrived :
      (msg : BridgeMessage) (name : String) (v : Value) (p : Property)
      → Travels v
      → property_of v ≡ some p
      → find msg name ≡ some (record p { value = travel_value p.value })
      → get_typed_property fc msg name ≡ some (arrived v, true)
  unfolding get_typed_property property_of
  get_typed_property-arrived msg name (int8 z) p r s e = ground (arith, wrap-Fits 128 z)
  get_typed_property-arrived msg name (int16 z) p r s e = ground (arith, wrap-Fits 32768 z)
  get_typed_property-arrived msg name (int32 z) p r s e = ground (arith, wrap-Fits 2147483648 z)
  get_typed_property-arrived msg name (uint8 n) p r s e = ground (arith, wrap-Fits 128 (pos n))
  get_typed_property-arrived msg name v p r s e = ground arith

  -- A property that SetProperty stores on a message with a property map, sent by Encode and received
  -- by DecodeBridgeMessage, is read by GetTypedProperty with true, as the value that was set (an int
  -- and a uint16, uint32 or uint64 below 2 ^ 63 as an int64, a byte below 128 as an int8), with the
  -- body and the header that were sent, if the encoding succeeds and the codec carries the message
  -- that was encoded.
  pub get_typed_property-decode_bridge_message :
      (c : Codec) (msg : BridgeMessage) (name : String) (v : Value) (b : List ℕ) {d : Dict Property}
      → msg.properties ≡ some d
      → Travels v
      → let msg' = with_properties msg (insert name (stored v) d) in
        encode c msg' ≡ ok b
        → ((sent : List ℕ) → encode c msg' ≡ ok sent → c.decode_bytes sent ≡ ok (travel msg'))
        → (set_property msg name v ≡ some (msg', none))
          × (received : BridgeMessage) × (decode_bridge_message c (some b) ≡ ok received)
          × (get_typed_property fc received name ≡ some (arrived v, true))
          × (received.body ≡ msg.body)
          × (received.header ≡ msg.header)
  unfolding decode_bridge_message
  get_typed_property-decode_bridge_message c msg name v b {d} e r sent carries =
      let s = property_of-Travels v r in
      let p = stored v in
      let msg' = with_properties msg (insert name p d) in
      (
        set_property_lem msg name v e s,
        travel msg',
        carries b sent,
        get_typed_property-arrived (travel msg') name v p r s
            (find-travel msg' name p (find-insert_self msg name p e)),
        refl,
        refl,
      )
