-- ===== src/Message/Property.antt =====
-- The typed properties of a message: SetProperty, GetTypedProperty, the typed getters,
-- HasProperty and DeleteProperty of message/message.go.
use nats_mq.Prelude.{
  ℕ, String, Bool, true, false, List, [], Option, none, some, ◌==◌, if◌then◌else◌,
}
use nats_mq.Prelude.Int.{ℤ, pos, negsuc, wrap}
use nats_mq.Prelude.Dict.{Dict, lookup, insert, erase}
use nats_mq.Error.{Error, unsupported_type}
use nats_mq.Message.Data.{
  Value, null, string, bool, int8, int16, int32, int64, int, uint8, uint16, uint32, uint64, float32,
  float64, bytes, other, property_type_string, property_type_int8, property_type_int16,
  property_type_int32, property_type_int64, property_type_float32, property_type_float64,
  property_type_bool, property_type_bytes, property_type_null, Property, BridgeMessage,
}

-- Go's conversions between the two float types, on bit patterns.
pub record FloatConv : Type 0 where
  pub widen : ℕ → ℕ
  pub narrow : ℕ → ℕ

abbrev pub entry : ℕ → Value → Property
entry k v = record { kind = pos k; value = v }

-- The type switch of SetProperty; `none` is its default case.
unfoldable pub property_of : Value → Option Property
property_of null = some (entry property_type_null null)
property_of (string s) = some (entry property_type_string (string s))
property_of (bool b) = some (entry property_type_bool (bool b))
property_of (int8 z) = some (entry property_type_int8 (int8 z))
property_of (uint8 n) = some (entry property_type_int8 (uint8 n))
property_of (int16 z) = some (entry property_type_int16 (int16 z))
property_of (int32 z) = some (entry property_type_int32 (int32 z))
property_of (int64 z) = some (entry property_type_int64 (int64 z))
property_of (uint16 n) = some (entry property_type_int64 (uint16 n))
property_of (uint32 n) = some (entry property_type_int64 (uint32 n))
property_of (uint64 n) = some (entry property_type_int64 (uint64 n))
property_of (int z) = some (entry property_type_int64 (int z))
property_of (float32 b) = some (entry property_type_float32 (float32 b))
property_of (float64 b) = some (entry property_type_float64 (float64 b))
property_of (bytes d) = some (entry property_type_bytes (bytes d))
property_of (other t) = none

-- reflect.TypeOf, where SetProperty names the type that it refuses.
type_name : Value → String
type_name (other t) = t
type_name _ = ""

-- `msg.Properties[name] = p`, which panics on a nil map.
put_property : String → Property → BridgeMessage → Option (Dict Property) → Option BridgeMessage
put_property name p msg none = none
put_property name p msg (some d) = some (record msg { properties = some (insert name p d) })

-- The message after the call with the error that is returned; the outer `none` is a panic.
unfoldable pub set_property : BridgeMessage → String → Value → Option (BridgeMessage × Option Error)
unfolding property_of put_property type_name
set_property msg name v = elim (property_of v) [
  | none ↦ some (msg, some (unsupported_type (type_name v)))
  | some p ↦ elim (put_property name p msg msg.properties) [
    | none ↦ none
    | some msg' ↦ some (msg', none)
  ]
]

-- prop, ok := msg.Properties[name]
unfoldable pub find : BridgeMessage → String → Option Property
find msg name = elim (msg.properties) [ none ↦ none | some d ↦ lookup name d ]

-- prop.Type == k
abbrev pub is_type : ℤ → ℕ → Bool
is_type (pos n) k = n == k
is_type (negsuc n) k = false

abbrev pub string_of : Value → String × Bool
string_of (string s) = (s, true)
string_of _ = ("", false)

unfoldable pub get_string_property : BridgeMessage → String → String × Bool
get_string_property msg name = elim (find msg name) [
  | none ↦ ("", false)
  | some p ↦ if is_type p.kind property_type_string then string_of p.value else ("", false)
]

-- `int` has 64 bits, so no case of the switch loses a digit.
abbrev pub parse_int : Value → ℤ × Bool
parse_int (int z) = (z, true)
parse_int (int8 z) = (z, true)
parse_int (int16 z) = (z, true)
parse_int (int32 z) = (z, true)
parse_int (int64 z) = (z, true)
parse_int _ = (pos 0, false)

-- val, ok := msg.parseInt(v); if ok { return intN(val), true }; return 0, false
abbrev pub narrow_int : ℕ → ℤ × Bool → ℤ × Bool
narrow_int half (z, true) = (wrap half z, true)
narrow_int half (z, false) = (pos 0, false)

-- The getters of the three narrow integer types differ in the type tested and the conversion.
abbrev pub int_property : ℕ → ℕ → Option Property → ℤ × Bool
int_property k half none = (pos 0, false)
int_property k half (some p) =
    if is_type p.kind k then narrow_int half (parse_int p.value) else (pos 0, false)

unfoldable pub get_int8_property : BridgeMessage → String → ℤ × Bool
get_int8_property msg name = int_property property_type_int8 128 (find msg name)

unfoldable pub get_int16_property : BridgeMessage → String → ℤ × Bool
get_int16_property msg name = int_property property_type_int16 32768 (find msg name)

unfoldable pub get_int32_property : BridgeMessage → String → ℤ × Bool
get_int32_property msg name = int_property property_type_int32 2147483648 (find msg name)

unfoldable pub get_int64_property : BridgeMessage → String → ℤ × Bool
get_int64_property msg name = elim (find msg name) [
  | none ↦ (pos 0, false)
  | some p ↦ if is_type p.kind property_type_int64 then parse_int p.value else (pos 0, false)
]

-- The type assertions of the last two getters panic on a value of another type: `none`.
abbrev pub assert_bool : Value → Option (Bool × Bool)
assert_bool (bool b) = some (b, true)
assert_bool _ = none

abbrev pub assert_bytes : Value → Option (List ℕ × Bool)
assert_bytes (bytes d) = some (d, true)
assert_bytes _ = none

unfoldable pub get_bool_property : BridgeMessage → String → Option (Bool × Bool)
get_bool_property msg name = elim (find msg name) [
  | none ↦ some (false, false)
  | some p ↦ if is_type p.kind property_type_bool then assert_bool p.value else some (false, false)
]

-- A nil slice is the empty list here.
unfoldable pub get_bytes_property : BridgeMessage → String → Option (List ℕ × Bool)
get_bytes_property msg name = elim (find msg name) [
  | none ↦ some ([], false)
  | some p ↦ if is_type p.kind property_type_bytes then assert_bytes p.value else some ([], false)
]

unfoldable pub has_property : BridgeMessage → String → Bool
has_property msg name = elim (find msg name) [ none ↦ false | some p ↦ true ]

-- The value removed, or nil, and the message after the call.
unfoldable pub delete_property : BridgeMessage → String → Value × BridgeMessage
delete_property msg name = (
  elim (find msg name) [ none ↦ null | some p ↦ p.value ],
  elim (msg.properties) [ none ↦ msg | some d ↦ record msg { properties = some (erase name d) } ],
)

-- A result of a typed getter as the pair of an `interface{}` and a bool.
abbrev pub boxed {ℓ} : {A : Type ℓ} → (A → Value) → A × Bool → Option (Value × Bool)
boxed f (a, found) = some (f a, found)

abbrev pub boxed? {ℓ} : {A : Type ℓ} → (A → Value) → Option (A × Bool) → Option (Value × Bool)
boxed? f none = none
boxed? f (some (a, found)) = some (f a, found)

module _ (fc : FloatConv) where
  abbrev pub parse_float : Value → ℕ × Bool
  parse_float (float32 b) = (fc.widen b, true)
  parse_float (float64 b) = (b, true)
  parse_float _ = (0, false)

  abbrev pub narrow_float : ℕ × Bool → ℕ × Bool
  narrow_float (b, true) = (fc.narrow b, true)
  narrow_float (b, false) = (0, false)

  unfoldable pub get_float32_property : BridgeMessage → String → ℕ × Bool
  get_float32_property msg name = elim (find msg name) [
    | none ↦ (0, false)
    | some p ↦
        if is_type p.kind property_type_float32
        then narrow_float (parse_float p.value)
        else (0, false)
  ]

  unfoldable pub get_float64_property : BridgeMessage → String → ℕ × Bool
  get_float64_property msg name = elim (find msg name) [
    | none ↦ (0, false)
    | some p ↦ if is_type p.kind property_type_float64 then parse_float p.value else (0, false)
  ]

  -- The switch of GetTypedProperty on the type of the property that was found.
  unfoldable pub typed : BridgeMessage → String → ℤ → Option (Value × Bool)
  unfolding get_bool_property get_bytes_property get_int8_property get_int16_property
      get_int32_property get_int64_property get_float32_property get_float64_property
      get_string_property
  typed msg name k =
      if is_type k property_type_bool
      then boxed? bool (get_bool_property msg name)
      else if is_type k property_type_bytes
      then boxed? bytes (get_bytes_property msg name)
      else if is_type k property_type_int8
      then boxed int8 (get_int8_property msg name)
      else if is_type k property_type_int16
      then boxed int16 (get_int16_property msg name)
      else if is_type k property_type_int32
      then boxed int32 (get_int32_property msg name)
      else if is_type k property_type_int64
      then boxed int64 (get_int64_property msg name)
      else if is_type k property_type_float32
      then boxed float32 (get_float32_property msg name)
      else if is_type k property_type_float64
      then boxed float64 (get_float64_property msg name)
      else if is_type k property_type_string
      then boxed string (get_string_property msg name)
      else if is_type k property_type_null
      then some (null, true)
      else some (null, false)

  -- `none` is a panic.
  unfoldable pub get_typed_property : BridgeMessage → String → Option (Value × Bool)
  unfolding typed
  get_typed_property msg name = elim (find msg name) [
    | none ↦ some (null, false)
    | some p ↦ typed msg name p.kind
  ]
