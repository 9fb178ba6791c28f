-- ===== src/Message/Data.antt =====
-- The types and constants of message/message.go, and the codec that it calls.
use nats_mq.Prelude.{ℕ, String, Bool, List, [], Option, none, some}
use nats_mq.Prelude.Int.{ℤ, pos}
use nats_mq.Prelude.Dict.{Dict}
use nats_mq.Error.{Result, err, zero_length}

-- A value of Go's `interface{}`, by its dynamic type. Integers carry their value, floats their bit
-- pattern; `other` is a value of any further type, which is named.
pub data Value : Type 0 where
  null : Value
  string : String → Value
  bool : Bool → Value
  int8 int16 int32 int64 int : ℤ → Value
  uint8 uint16 uint32 uint64 : ℕ → Value
  float32 float64 : ℕ → Value
  bytes : List ℕ → Value
  other : String → Value

-- The constants PropertyTypeString to PropertyTypeNull.
abbrev pub property_type_string : ℕ
property_type_string = 0

abbrev pub property_type_int8 : ℕ
property_type_int8 = 1

abbrev pub property_type_int16 : ℕ
property_type_int16 = 2

abbrev pub property_type_int32 : ℕ
property_type_int32 = 3

abbrev pub property_type_int64 : ℕ
property_type_int64 = 4

abbrev pub property_type_float32 : ℕ
property_type_float32 = 5

abbrev pub property_type_float64 : ℕ
property_type_float64 = 6

abbrev pub property_type_bool : ℕ
property_type_bool = 7

abbrev pub property_type_bytes : ℕ
property_type_bytes = 8

abbrev pub property_type_null : ℕ
property_type_null = 9

-- `Type` is a Go `int`: a decoded message can hold any number there.
pub record Property : Type 0 where
  pub kind : ℤ
  pub value : Value

pub record BridgeHeader : Type 0 where
  pub version : ℤ
  pub report : ℤ
  pub msg_type : ℤ
  pub expiry : ℤ
  pub feedback : ℤ
  pub encoding : ℤ
  pub coded_char_set_id : ℤ
  pub format : String
  pub priority : ℤ
  pub persistence : ℤ
  pub msg_id : List ℕ
  pub correl_id : List ℕ
  pub backout_count : ℤ
  pub reply_to_q : String
  pub reply_to_q_mgr : String
  pub user_identifier : String
  pub accounting_token : List ℕ
  pub appl_identity_data : String
  pub put_appl_type : ℤ
  pub put_appl_name : String
  pub put_date : String
  pub put_time : String
  pub appl_origin_data : String
  pub group_id : List ℕ
  pub msg_seq_number : ℤ
  pub offset : ℤ
  pub msg_flags : ℤ
  pub original_length : ℤ
  pub reply_to_channel : String

-- `properties` is `none` for Go's nil map, which a decoded message without properties has.
pub record BridgeMessage : Type 0 where
  pub body : List ℕ
  pub header : BridgeHeader
  pub properties : Option (Dict Property)

-- Go's zero value of the header.
abbrev pub empty_header : BridgeHeader
empty_header = record {
  version = pos 0;
  report = pos 0;
  msg_type = pos 0;
  expiry = pos 0;
  feedback = pos 0;
  encoding = pos 0;
  coded_char_set_id = pos 0;
  format = "";
  priority = pos 0;
  persistence = pos 0;
  msg_id = [];
  correl_id = [];
  backout_count = pos 0;
  reply_to_q = "";
  reply_to_q_mgr = "";
  user_identifier = "";
  accounting_token = [];
  appl_identity_data = "";
  put_appl_type = pos 0;
  put_appl_name = "";
  put_date = "";
  put_time = "";
  appl_origin_data = "";
  group_id = [];
  msg_seq_number = pos 0;
  offset = pos 0;
  msg_flags = pos 0;
  original_length = pos 0;
  reply_to_channel = "";
}

unfoldable pub new_bridge_message : List ℕ → BridgeMessage
new_bridge_message body = record { body = body; header = empty_header; properties = some [] }

-- The MessagePack codec of github.com/ugorji/go, which the source calls.
pub record Codec : Type 0 where
  pub encode_bytes : BridgeMessage → Result (List ℕ)
  pub decode_bytes : List ℕ → Result BridgeMessage

-- `none` is Go's nil slice.
unfoldable pub decode_bridge_message : Codec → Option (List ℕ) → Result BridgeMessage
decode_bridge_message c none = err zero_length
decode_bridge_message c (some data') = c.decode_bytes data'

unfoldable pub encode : Codec → BridgeMessage → Result (List ℕ)
encode c msg = c.encode_bytes msg
