-- ===== src/Message/Tests.antt =====
-- Runs of the message operations, and the properties at concrete inputs.
use nats_mq.Prelude.{
  ◌*◌, ◌/◌, String, ◌≡◌, ◌≢◌, ◌↔◌, ◌⊎◌, refl, true, false, [], ◌∷◌, none, some, arith, eq_iff,
}
use nats_mq.Prelude.Int.{pos, negsuc}
use nats_mq.Prelude.Dict.{Dict, lookup, insert}
use nats_mq.Error.{Error, ok}
use nats_mq.Message.Data.{
  string, int8, int64, int, uint8, other, property_type_bool, property_type_bytes, Property,
  BridgeMessage, empty_header, Codec, encode, decode_bridge_message, new_bridge_message,
}
use nats_mq.Message.Property.{
  FloatConv, entry, set_property, find, get_typed_property, has_property,
}
use nats_mq.Message.RoundTrip.{with_properties, stored, get_typed_property-set_property}
use nats_mq.Message.Panics.{set_property_outcome, get_typed_property-panics}
use nats_mq.Message.Wire.{travel, get_typed_property-decode_bridge_message}

-- A float32 pattern has 32 bits fewer than the float64 pattern here.
abbrev shifting : FloatConv
shifting = record { widen = λ b. b * 4294967296; narrow = λ b. b / 4294967296 }

abbrev two_props : Dict Property
two_props = ("size", entry 1 (int8 (pos 5))) ∷ ("flag", entry 7 (string "yes")) ∷ []

abbrev sample : BridgeMessage
sample = record { body = 1 ∷ 2 ∷ []; header = empty_header; properties = some two_props }

size_ne_flag : ◌≢◌ {A = String} "size" "flag"
size_ne_flag = ground (arith, eq_iff "size" "flag")

int8_wraps : get_typed_property shifting sample "size" ≡ some (int8 (pos 5), true)
unfolding get_typed_property find lookup
int8_wraps = refl

new_message_is_empty : has_property (new_bridge_message (1 ∷ [])) "size" ≡ false
unfolding has_property new_bridge_message find lookup
new_message_is_empty = refl

get_typed_property-set_property_example :
    (msg' : BridgeMessage) × (set_property sample "size" (int (negsuc 6)) ≡ some (msg', none))
    × (get_typed_property shifting msg' "size" ≡ some (int64 (negsuc 6), true))
    × ((j : String)
        → "size" ≢ j
        → get_typed_property shifting msg' j ≡ get_typed_property shifting sample j)
    × (msg'.body ≡ sample.body)
    × (msg'.header ≡ sample.header)
get_typed_property-set_property_example =
    get_typed_property-set_property shifting sample "size" (int (negsuc 6)) refl tt

set_property_outcome_example :
    ((set_property sample "a" (other "chan int") ≡ none)
      ↔ ((false ≡ true) × (sample.properties ≡ none)))
    × (false ≡ false
        → (e : Error) × (set_property sample "a" (other "chan int") ≡ some (sample, some e)))
    × ((msg' : BridgeMessage) (e : Error)
        → set_property sample "a" (other "chan int") ≡ some (msg', some e)
        → (false ≡ false) × (msg' ≡ sample))
set_property_outcome_example = set_property_outcome sample "a" (other "chan int")

get_typed_property-panics_example : (get_typed_property shifting sample "flag" ≡ none) ↔ (
    (pos 7 ≡ pos property_type_bool) × (false ≡ false)
    ⊎ (pos 7 ≡ pos property_type_bytes) × (false ≡ false))
unfolding find lookup
get_typed_property-panics_example =
    get_typed_property-panics shifting sample "flag" (entry 7 (string "yes")) refl

abbrev sent : BridgeMessage
sent = with_properties sample (insert "byte" (stored (uint8 7)) two_props)

-- A codec for the one message.
abbrev one_message : Codec
one_message = record {
  encode_bytes = λ msg. ok (9 ∷ []);
  decode_bytes = λ b. ok (travel shifting sent);
}

get_typed_property-decode_bridge_message_example :
    (set_property sample "byte" (uint8 7) ≡ some (sent, none))
    × (received : BridgeMessage) × (decode_bridge_message one_message (some (9 ∷ [])) ≡ ok received)
    × (get_typed_property shifting received "byte" ≡ some (int8 (pos 7), true))
    × (received.body ≡ sample.body)
    × (received.header ≡ sample.header)
unfolding encode
get_typed_property-decode_bridge_message_example =
    get_typed_property-decode_bridge_message shifting one_message sample "byte" (uint8 7) (9 ∷ [])
      refl (omega arith) refl (λ b e. refl)
