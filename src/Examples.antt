-- ===== src/Examples.antt =====
-- The example programs: message/examples/tick/main.go, which sends a message every second,
-- message/examples/tock/main.go, which prints those that come back, and the message that
-- message/interchange/main.go writes to a file for readers in other languages.
pub mod Pipeline
mod Tests
use nats_mq.Prelude.{ℕ, String, Bool, true, false, List, [], ◌∷◌, Option, none, some}
use nats_mq.Prelude.Int.{ℤ, pos}
use nats_mq.Error.{Error, Result, ok, err, Outcome, done, ◌>>=◌, lift}
use nats_mq.Convert.Properties.{set_outcome}
use nats_mq.Message.Data.{
  Value, string, bool, int8, int16, int32, int64, int, float32, float64, bytes, BridgeHeader,
  BridgeMessage, Codec, empty_header, new_bridge_message, encode, decode_bridge_message,
}
use nats_mq.Message.Property.{set_property, get_int64_property, get_string_property}

-- What both print of a message: its body, its counter, its time and its correlation id; or that a
-- property is missing, which ends the program. The lines printed before that are left out.
pub data Printed : Type 0 where
  shown : List ℕ → ℤ → String → List ℕ → Printed
  missing : String → Printed

abbrev pub printed_time : BridgeMessage → ℤ → String × Bool → Printed
printed_time msg counter (time, false) = missing "time"
printed_time msg counter (time, true) = shown msg.body counter time msg.header.correl_id

abbrev pub printed_counter : BridgeMessage → ℤ × Bool → Printed
printed_counter msg (counter, false) = missing "counter"
printed_counter msg (counter, true) = printed_time msg counter (get_string_property msg "time")

unfoldable pub printed : BridgeMessage → Printed
printed msg = printed_counter msg (get_int64_property msg "counter")

-- How a round of tick ends: it prints and publishes bytes; or the program ends with what was missing,
-- with an error of Encode, or with a panic.
pub data Tick : Type 0 where
  publishes : Printed → List ℕ → Tick
  fatal_missing : String → Tick
  fatal_error : Error → Tick
  panics : Tick

-- SetProperty with its error ignored.
abbrev pub set_ignoring : String → Value → Option BridgeMessage → Option BridgeMessage
set_ignoring name v none = none
set_ignoring name v (some msg) = elim (set_property msg name v) [ none ↦ none | some r ↦ some r.0 ]

-- The message of a round, where `id` is what nuid.Next() returns and `time` the formatted time.
unfoldable pub tick_message : List ℕ → List ℕ → ℤ → String → Option BridgeMessage
tick_message body id counter time =
    let msg = record (new_bridge_message body) {
      header = record empty_header { correl_id = id };
    } in
    set_ignoring "time" (string time) (set_ignoring "counter" (int counter) (some msg))

abbrev pub publish_encoded : Printed → Result (List ℕ) → Tick
publish_encoded (missing name) encoded = fatal_missing name
publish_encoded p (err e) = fatal_error e
publish_encoded p (ok b) = publishes p b

unfoldable pub tick : Codec → List ℕ → List ℕ → ℤ → String → Tick
unfolding tick_message printed
tick c body id counter time = elim (tick_message body id counter time) [
  | none ↦ panics
  | some msg ↦ publish_encoded (printed msg) (encode c msg)
]

-- The subscription of tock: `err` is an error of DecodeBridgeMessage, which ends the program.
unfoldable pub tock : Codec → Option (List ℕ) → Result Printed
unfolding printed
tock c body = elim (decode_bridge_message c body) [ err e ↦ err e | ok msg ↦ ok (printed msg) ]

-- The map of message/interchange/main.go. The floats are the bit patterns of 3.14 and 6.4999.
abbrev pub expected : List (String × Value)
expected =
    ("string", string "hello world")
    ∷ ("int8", int8 (pos 9))
    ∷ ("int16", int16 (pos 259))
    ∷ ("int32", int32 (pos 222222222))
    ∷ ("int64", int64 (pos 222222222222222222))
    ∷ ("float32", float32 1078523331)
    ∷ ("float64", float64 4619004255231874276)
    ∷ ("bool", bool true)
    ∷ (
      "bytes",
      bytes (
          111 ∷ 110 ∷ 101 ∷ 32 ∷ 116 ∷ 119 ∷ 111 ∷ 32 ∷ 116 ∷ 104 ∷ 114 ∷ 101 ∷ 101 ∷ 32 ∷ 102 ∷ 111
          ∷ 117 ∷ 114 ∷ []),
    )
    ∷ []

abbrev hello_world : List ℕ
hello_world = 104 ∷ 101 ∷ 108 ∷ 108 ∷ 111 ∷ 32 ∷ 119 ∷ 111 ∷ 114 ∷ 108 ∷ 100 ∷ []

abbrev cafebabe : List ℕ
cafebabe = 99 ∷ 97 ∷ 102 ∷ 101 ∷ 98 ∷ 97 ∷ 98 ∷ 101 ∷ []

abbrev pub interchange_header : BridgeHeader
interchange_header = record empty_header { version = pos 1; report = pos 2; msg_id = cafebabe }

-- The loop over the entries of the map, in the order in which it meets them.
unfoldable pub set_all : List (String × Value) → BridgeMessage → Outcome BridgeMessage
set_all [] msg = done msg
set_all ((name, v) ∷ rest) msg = do msg' ← set_outcome (set_property msg name v); set_all rest msg'

-- The bytes that are written to the file, where `entries` is `expected` in some order.
unfoldable pub interchange : Codec → List (String × Value) → Outcome (List ℕ)
interchange c entries = do
  msg ← set_all entries (record (new_bridge_message hello_world) { header = interchange_header })
  lift (encode c msg)
