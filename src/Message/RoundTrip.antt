-- ===== src/Message/RoundTrip.antt =====
-- What SetProperty of message/message.go stores and GetTypedProperty reads.
use nats_mq.Prelude.{
  String, ◌≡◌, ◌≢◌, refl, true, false, none, some, arith, str_eq, eq_iff, eq_refl, if◌then◌else◌,
}
use nats_mq.Prelude.Int.{pos, Fits}
use nats_mq.Prelude.Dict.{Dict, insert, lookup-insert}
use nats_mq.Message.Data.{
  Value, null, string, bool, int8, int16, int32, int64, int, uint8, uint16, uint32, uint64, float32,
  float64, bytes, Property, BridgeMessage,
}
use nats_mq.Message.Property.{
  FloatConv, entry, property_of, set_property, find, get_typed_property, has_property,
}
use nats_mq.Message.Narrow.{wrap-Fits}

-- A message whose property map is `d`.
abbrev pub with_properties : BridgeMessage → Dict Property → BridgeMessage
with_properties msg d = record msg { properties = some d }

pub set_property_lem :
    (msg : BridgeMessage) (name : String) (v : Value) {d : Dict Property} {p : Property}
    → msg.properties ≡ some d
    → property_of v ≡ some p
    → set_property msg name v ≡ some (with_properties msg (insert name p d), none)
unfolding set_property
set_property_lem msg name v e s = ground arith

pub find-insert :
    (msg : BridgeMessage) (name j : String) (p : Property) {d : Dict Property}
    → msg.properties ≡ some d
    → find (with_properties msg (insert name p d)) j
      ≡ (if str_eq name j then some p else find msg j)
unfolding find
find-insert msg name j p {d} e = rw lookup-insert (ground arith)

pub find-insert_self :
    (msg : BridgeMessage) (name : String) (p : Property) {d : Dict Property}
    → msg.properties ≡ some d
    → find (with_properties msg (insert name p d)) name ≡ some p
find-insert_self msg name p e = rw (find-insert msg name name p e) (ground (arith, eq_refl name))

pub find-insert_ne :
    (msg : BridgeMessage) (name j : String) (p : Property) {d : Dict Property}
    → msg.properties ≡ some d
    → name ≢ j
    → find (with_properties msg (insert name p d)) j ≡ find msg j
find-insert_ne msg name j p e ne = rw (find-insert msg name j p e) (ground (arith, eq_iff name j))

-- What SetProperty stores of a value that it takes.
abbrev pub stored : Value → Property
unfolding property_of
stored v = elim (property_of v) [ none ↦ entry 0 null | some p ↦ p ]

-- The unsigned integers, which SetProperty takes.
abbrev pub IsUnsigned : Value → Type 0
IsUnsigned (uint8 n) = Unit
IsUnsigned (uint16 n) = Unit
IsUnsigned (uint32 n) = Unit
IsUnsigned (uint64 n) = Unit
IsUnsigned _ = ⊥

-- The zero value that is returned in place of the one stored.
abbrev pub zero_of : Value → Value
zero_of (uint8 n) = int8 (pos 0)
zero_of _ = int64 (pos 0)

property_of-IsUnsigned : (v : Value) → IsUnsigned v → property_of v ≡ some (stored v)
unfolding property_of
property_of-IsUnsigned (uint8 n) u = refl
property_of-IsUnsigned v u = ground arith

module _ (fc : FloatConv) where
  -- Reading depends on nothing but the entry found.
  pub get_typed_property-congr :
      (msg msg' : BridgeMessage) (j : String)
      → find msg' j ≡ find msg j
      → get_typed_property fc msg' j ≡ get_typed_property fc msg j
  unfolding get_typed_property
  get_typed_property-congr msg msg' j e = ground arith

  -- A value that SetProperty takes and that the getters know, in the range of its type. A float32 is
  -- read through a float64, so the conversions have to keep it.
  abbrev pub Readable : Value → Type 0
  Readable null = Unit
  Readable (string s) = Unit
  Readable (bool b) = Unit
  Readable (int8 z) = Fits 128 z
  Readable (int16 z) = Fits 32768 z
  Readable (int32 z) = Fits 2147483648 z
  Readable (int64 z) = Unit
  Readable (int z) = Unit
  Readable (float32 b) = fc.narrow (fc.widen b) ≡ b
  Readable (float64 b) = Unit
  Readable (bytes d) = Unit
  Readable _ = ⊥

  -- The value that comes back: an `int` comes back as an int64.
  abbrev pub read_back : Value → Value
  read_back (int z) = int64 z
  read_back v = v

  property_of-Readable : (v : Value) → Readable v → property_of v ≡ some (stored v)
  unfolding property_of
  property_of-Readable null r = refl
  property_of-Readable v r = ground arith

  get_typed_property-stored :
      (msg : BridgeMessage) (name : String) (v : Value)
      → Readable v
      → (p : Property) → property_of v ≡ some p
      → find msg name ≡ some p
      → get_typed_property fc msg name ≡ some (read_back v, true)
  unfolding get_typed_property property_of
  get_typed_property-stored msg name (int8 z) r p s e = ground (arith, wrap-Fits 128 z)
  get_typed_property-stored msg name (int16 z) r p s e = ground (arith, wrap-Fits 32768 z)
  get_typed_property-stored msg name (int32 z) r p s e = ground (arith, wrap-Fits 2147483648 z)
  get_typed_property-stored msg name v r p s e = ground arith

  -- On a message whose property map is not nil, SetProperty of a readable value returns no error;
  -- afterwards GetTypedProperty returns the value (an `int` as an int64) with true, every other name
  -- reads as before, and the body and the header are unchanged.
  pub get_typed_property-set_property :
      (msg : BridgeMessage) (name : String) (v : Value) {d : Dict Property}
      → msg.properties ≡ some d
      → Readable v
      → (msg' : BridgeMessage) × (set_property msg name v ≡ some (msg', none))
        × (get_typed_property fc msg' name ≡ some (read_back v, true))
        × ((j : String) → name ≢ j → get_typed_property fc msg' j ≡ get_typed_property fc msg j)
        × (msg'.body ≡ msg.body)
        × (msg'.header ≡ msg.header)
  get_typed_property-set_property msg name v {d} e r =
      let p = stored v in
      let s = property_of-Readable v r in
      let msg' = with_properties msg (insert name p d) in
      (
        msg',
        set_property_lem msg name v e s,
        get_typed_property-stored msg' name v r p s (find-insert_self msg name p e),
        (λ j ne. get_typed_property-congr msg msg' j (find-insert_ne msg name j p e ne)),
        refl,
        refl,
      )

  get_typed_property-unsigned :
      (msg : BridgeMessage) (name : String) (v : Value) (p : Property)
      → IsUnsigned v
      → property_of v ≡ some p
      → find msg name ≡ some p
      → get_typed_property fc msg name ≡ some (zero_of v, false)
  unfolding get_typed_property property_of
  get_typed_property-unsigned msg name (uint8 n) p u s e = ground arith
  get_typed_property-unsigned msg name v p u s e = ground arith

  -- On a message whose property map is not nil, SetProperty of an unsigned integer returns no error
  -- and stores a property, and GetTypedProperty of that name then returns a zero and false.
  pub get_typed_property-unsigned_lost :
      (msg : BridgeMessage) (name : String) (v : Value) {d : Dict Property}
      → msg.properties ≡ some d
      → IsUnsigned v
      → (msg' : BridgeMessage) × (set_property msg name v ≡ some (msg', none))
        × (has_property msg' name ≡ true)
        × (get_typed_property fc msg' name ≡ some (zero_of v, false))
  unfolding has_property
  get_typed_property-unsigned_lost msg name v {d} e u =
      let p = stored v in
      let s = property_of-IsUnsigned v u in
      let msg' = with_properties msg (insert name p d) in
      let found = find-insert_self msg name p e in
      (
        msg',
        set_property_lem msg name v e s,
        ground (arith, found),
        get_typed_property-unsigned msg' name v p u s found,
      )
