-- ===== src/Examples/Tests.antt =====
-- A message of tick that comes back to tock, at concrete values.
use nats_mq.Prelude.{
  ℕ, ◌≡◌, refl, ◌≢◌, String, Bool, true, false, ◌==◌, if◌then◌else◌, List, [], ◌∷◌, Option, none,
  some, arith,
}
use nats_mq.Prelude.Int.{pos, eqb_ℤ}
use nats_mq.Error.{ok, done}
use nats_mq.Message.Data.{
  BridgeMessage, Codec, string, int64, new_bridge_message, decode_bridge_message,
}
use nats_mq.Message.RoundTrip.{with_properties}
use nats_mq.Message.Wire.{travel}
use nats_mq.Convert.Mqmd.{Mqmd}
use nats_mq.Convert.Properties.{MessageHandle}
use nats_mq.Convert.Messages.{Libraries, mq_to_nats_message, nats_to_mq_message}
use nats_mq.Convert.Reply.{reply_to_nats}
use nats_mq.Convert.Journey.{stored_all, arrived_all, sent_with}
use nats_mq.Convert.Relay.{put_mqmd, AllRead, mq_to_nats_message-nats_to_mq_message}
use nats_mq.Examples.{shown, publishes, tick, tock, expected, set_all}
use nats_mq.Examples.Pipeline.{tick_properties, ticked, Carries, IsGotten, tock-tick}
use nats_mq.Samples.{shifting, constants0, mqmd0, codec_of, accepting}

abbrev greeting : List ℕ
greeting = 104 ∷ 105 ∷ []

abbrev an_id : List ℕ
an_id = 7 ∷ []

abbrev noon : String
noon = "Mon Jan  1 12:00:00 UTC 2018"

abbrev gotten : Mqmd
gotten = record mqmd0 { correl_id = 7 ∷ 0 ∷ [] }

abbrev gotten_handle : MessageHandle
gotten_handle = record {
  properties = ("counter", int64 (pos 3)) ∷ ("time", string noon) ∷ [];
  end = record { mqcc = pos 2; mqrc = constants0.mqrc_property_not_available };
}

abbrev bare : Libraries
bare = record { mq = constants0; codec = codec_of (new_bridge_message []); floats = shifting }

abbrev there : BridgeMessage
there = with_properties (ticked greeting an_id) (stored_all (tick_properties (pos 3) noon))

abbrev back_again : BridgeMessage
back_again = sent_with bare [] gotten (arrived_all shifting (tick_properties (pos 3) noon)) greeting

abbrev list_is_two : List ℕ → Bool
list_is_two [] = false
list_is_two (n ∷ ns) = n == 2

-- The bytes of the first message are 1, those of the second are 2.
abbrev two_messages : Codec
two_messages = record {
  encode_bytes = λ m. if eqb_ℤ m.header.version (pos 1) then ok (2 ∷ []) else ok (1 ∷ []);
  decode_bytes =
      λ b. if list_is_two b then ok (travel shifting back_again) else ok (travel shifting there);
}

abbrev libraries : Libraries
libraries = record bare { codec = two_messages }

is_gotten : IsGotten libraries [] greeting an_id (pos 3) noon gotten gotten_handle
unfolding nats_mq.Convert.Reply.reply_to_mq nats_mq.Convert.Reply.reply_channel_to_mq
    nats_mq.Convert.Reply.set_reply nats_mq.Convert.Header.map_header_to_mqmd
    nats_mq.Convert.Bytes.copy_byte_array_if_not_empty
is_gotten = record { correl_id = refl; properties = refl; over = refl }

first_carried : Carries libraries there (1 ∷ [])
unfolding new_bridge_message
first_carried = (refl, refl)

second_carried : Carries libraries back_again (2 ∷ [])
unfolding new_bridge_message nats_mq.Convert.Header.map_mqmd_to_header
second_carried = (refl, refl)

tock-tick_example :
    (tick two_messages greeting an_id (pos 3) noon
      ≡ publishes (shown greeting (pos 3) noon an_id) (1 ∷ []))
    × (nats_to_mq_message libraries [] accepting (some (1 ∷ [])) "" true
        ≡ done (
          put_mqmd libraries [] (ticked greeting an_id) "",
          some gotten_handle.properties,
          some greeting,
        ))
    × (mq_to_nats_message libraries [] (some gotten) (some gotten_handle) greeting 2 true
        ≡ done (2 ∷ [], (reply_to_nats [] (some gotten)).0))
    × (tock two_messages (some (2 ∷ [])) ≡ ok (shown greeting (pos 3) noon an_id))
tock-tick_example =
    tock-tick libraries [] accepting greeting an_id (1 ∷ []) (2 ∷ []) (pos 3) noon gotten
      gotten_handle (omega arith) (omega arith) (omega arith) refl (λ name v. refl) is_gotten
      first_carried second_carried

mq_to_nats_message-nats_to_mq_message_example :
    (nats_to_mq_message libraries [] accepting (some (1 ∷ [])) "" true
      ≡ done (
        put_mqmd libraries [] (ticked greeting an_id) "",
        some gotten_handle.properties,
        some greeting,
      ))
    × (mq_to_nats_message libraries [] (some gotten) (some gotten_handle) greeting 2 true
        ≡ done (2 ∷ [], (reply_to_nats [] (some gotten)).0))
    × (received : BridgeMessage) × (decode_bridge_message two_messages (some (2 ∷ []))
        ≡ ok received)
    × (received.body ≡ greeting)
    × (received.header ≡ back_again.header)
    × AllRead shifting received (tick_properties (pos 3) noon)
unfolding new_bridge_message nats_mq.Prelude.Dict.lookup
mq_to_nats_message-nats_to_mq_message_example =
    mq_to_nats_message-nats_to_mq_message libraries [] accepting (ticked greeting an_id)
      (tick_properties (pos 3) noon) "" gotten gotten_handle (1 ∷ []) (2 ∷ []) (refl, (refl, tt))
      (tt, (tt, tt)) refl (λ name v. refl) first_carried.1 refl refl second_carried.0
      second_carried.1

-- The interchange file holds the map's entries.
interchange_holds :
    set_all expected (new_bridge_message [])
    ≡ done (with_properties (new_bridge_message []) (stored_all expected))
unfolding set_all nats_mq.Message.Property.set_property nats_mq.Prelude.Dict.insert
    new_bridge_message nats_mq.Message.Property.property_of
interchange_holds = refl
