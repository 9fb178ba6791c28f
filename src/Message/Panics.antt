-- ===== src/Message/Panics.antt =====
-- When SetProperty and GetTypedProperty fail or panic, and what DeleteProperty leaves.
use nats_mq.Prelude.{
  String, ◌≡◌, ◌≢◌, ◌↔◌, ◌⊎◌, refl, Bool, true, false, inl, inr, Option-cases, none, some, arith,
  eq_iff, eq_refl, str_eq, if◌then◌else◌,
}
use nats_mq.Prelude.Int.{pos}
use nats_mq.Prelude.Dict.{lookup-erase}
use nats_mq.Error.{Error, unsupported_type}
use nats_mq.Message.Data.{
  Value, null, bool, bytes, other, property_type_bool, property_type_bytes, Property, BridgeMessage,
}
use nats_mq.Message.Property.{
  FloatConv, set_property, find, get_typed_property, has_property, delete_property,
}
use nats_mq.Message.RoundTrip.{get_typed_property-congr}

-- A value that the type switch of SetProperty has a case for.
abbrev pub is_supported : Value → Bool
is_supported (other t) = false
is_supported _ = true

-- SetProperty panics exactly when the value is supported and the property map is nil; it returns an
-- error exactly when the value is not supported, and then the message is unchanged.
pub set_property_outcome :
    (msg : BridgeMessage) (name : String) (v : Value)
    → ((set_property msg name v ≡ none) ↔ ((is_supported v ≡ true) × (msg.properties ≡ none)))
      × ((is_supported v ≡ false) → (e : Error) × (set_property msg name v ≡ some (msg, some e)))
      × ((msg' : BridgeMessage) (e : Error)
          → set_property msg name v ≡ some (msg', some e)
          → (is_supported v ≡ false) × (msg' ≡ msg))
unfolding set_property
set_property_outcome msg name (other t) =
    ((ground arith, ground arith), (λ u. (unsupported_type t, refl)), λ msg' e h. ground arith)
set_property_outcome msg name v =
    ((ground arith, ground arith), (λ u. cc), λ msg' e h. ground arith)

abbrev pub is_bool : Value → Bool
is_bool (bool b) = true
is_bool _ = false

abbrev pub is_bytes : Value → Bool
is_bytes (bytes d) = true
is_bytes _ = false

find-delete_property :
    (msg : BridgeMessage) (name j : String)
    → find (delete_property msg name).1 j ≡ (if str_eq name j then none else find msg j)
unfolding delete_property find
find-delete_property msg name j = elim (Option-cases (msg.properties)) [
  | inl e ↦ ground arith
  | inr (d, e) ↦ ground (arith, lookup-erase name j d)
]

find-delete_property_self :
    (msg : BridgeMessage) (name : String) → find (delete_property msg name).1 name ≡ none
find-delete_property_self msg name = rw find-delete_property (ground (arith, eq_refl name))

module _ (fc : FloatConv) where
  -- GetTypedProperty panics for a name exactly when the property found has type PropertyTypeBool and
  -- no bool value, or type PropertyTypeBytes and no []byte value.
  pub get_typed_property-panics :
      (msg : BridgeMessage) (name : String) (p : Property)
      → find msg name ≡ some p
      → (get_typed_property fc msg name ≡ none) ↔ (
          (p.kind ≡ pos property_type_bool) × (is_bool p.value ≡ false)
          ⊎ (p.kind ≡ pos property_type_bytes) × (is_bytes p.value ≡ false))
  unfolding get_typed_property
  get_typed_property-panics msg name p e = (ground arith, ground arith)

  -- DeleteProperty returns the value that the name had, or nil; afterwards the name has no property,
  -- GetTypedProperty returns nil and false for it, and every other name reads as before.
  pub delete_property_lem :
      (msg : BridgeMessage) (name : String)
      → let (v, msg') = delete_property msg name in
        ((p : Property) → find msg name ≡ some p → v ≡ p.value)
        × (find msg name ≡ none → v ≡ null)
        × (has_property msg' name ≡ false)
        × (get_typed_property fc msg' name ≡ some (null, false))
        × ((j : String) → name ≢ j → get_typed_property fc msg' j ≡ get_typed_property fc msg j)
  delete_property_lem msg name =
      let msg' = (delete_property msg name).1 in
      let gone = find-delete_property_self msg name in
      (
        (λ p e. unfold delete_property in ground arith),
        (λ e. unfold delete_property in ground arith),
        (unfold has_property in ground (arith, gone)),
        (unfold get_typed_property in ground (arith, gone)),
        λ j ne.
            get_typed_property-congr fc msg msg' j
              (rw find-delete_property (ground (arith, eq_iff name j))),
      )
