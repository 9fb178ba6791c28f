-- ===== src/Convert/Tests.antt =====
-- Runs of the conversions, and their properties at concrete inputs.
use nats_mq.Prelude.{
  ℕ, ◌≡◌, ◌≢◌, ◌↔◌, ◌⊎◌, inl, inr, refl, String, true, false, List, [], ◌∷◌, Option, none, some,
  length, arith,
}
use mathlib.Core.List.Permᴰ.{Permᴰ, swap}
use nats_mq.Error.{MqReturn, done}
use nats_mq.Message.Data.{Value, string, uint8, int8, new_bridge_message}
use nats_mq.Message.Wire.{travel}
use nats_mq.Convert.Bytes.{copy_byte_array, copy_byte_array_if_not_empty}
use nats_mq.Convert.Bytes.RoundTrip.{zeros, NonzeroHead, copy_byte_array_round_trip}
use nats_mq.Convert.Header.RoundTrip.{Survives, ZeroIds, IdsSurvive, renewed}
use nats_mq.Convert.Properties.{MessageHandle}
use nats_mq.Convert.Reply.{ReplyToInfo, reply_to_nats}
use nats_mq.Convert.Messages.{Libraries, mq_to_nats_message, nats_to_mq_message}
use nats_mq.Convert.Journey.{AreNew, sent_with, nats_to_mq_message-mq_to_nats_message}
use nats_mq.Convert.Mqmd.{Mqmd}
use nats_mq.Prelude.Int.{pos}
use nats_mq.Samples.{shifting, config0, constants0, mqmd0, incoming, codec_of, accepting}

leading_zero_lost : copy_byte_array_if_not_empty (copy_byte_array (0 ∷ 7 ∷ [])) [] 2 ≡ 7 ∷ 0 ∷ []
unfolding copy_byte_array copy_byte_array_if_not_empty
leading_zero_lost = refl

abbrev replies : ReplyToInfo
replies = ("Q:back@QM1", record config0 { subject = "answers" }) ∷ []

reply_subject :
    reply_to_nats replies (some (record mqmd0 { reply_to_q = "back"; reply_to_q_mgr = "QM1" }))
    ≡ ("answers", "")
unfolding reply_to_nats nats_mq.Prelude.Dict.lookup
reply_subject = refl

copy_byte_array_round_trip_example :
    (copy_byte_array_if_not_empty (copy_byte_array (0 ∷ 7 ∷ [])) (zeros 2) 2 ≡ 0 ∷ 7 ∷ [])
    ↔ (NonzeroHead (0 ∷ 7 ∷ []) ⊎ (0 ∷ 7 ∷ [] ≡ zeros 2))
copy_byte_array_round_trip_example = copy_byte_array_round_trip (0 ∷ 7 ∷ []) (omega arith)

zero_ids : ZeroIds constants0
zero_ids = record { msg_id = refl; correl_id = refl; accounting_token = refl; group_id = refl }

two_zeros : Survives 2 (0 ∷ 0 ∷ [])
two_zeros = record { sized = refl; some_bytes = omega arith; shape = inr refl }

incoming_survives : IdsSurvive constants0 incoming
incoming_survives = record {
  msg_id = record { sized = refl; some_bytes = omega arith; shape = inl (omega arith) };
  correl_id = two_zeros;
  accounting_token = two_zeros;
  group_id = two_zeros;
}

-- The codec of the examples carries one message, which is put in where it is known.
abbrev no_codec : Libraries
no_codec = record { mq = constants0; codec = codec_of (new_bridge_message []); floats = shifting }

-- A message with two properties whose reply queue `replies` leads to the subject answers, which
-- leads back to the queue elsewhere.
abbrev wants_answer : Mqmd
wants_answer = record incoming { reply_to_q = "back"; reply_to_q_mgr = "QM1" }

abbrev both_ways : ReplyToInfo
both_ways =
    (
      "S:answers",
      record config0 { queue = "elsewhere"; mq = record config0.mq { queue_manager = "QM2" } },
    )
    ∷ replies

wants_answer_survives : IdsSurvive constants0 wants_answer
wants_answer_survives = record {
  msg_id = incoming_survives.msg_id;
  correl_id = two_zeros;
  accounting_token = two_zeros;
  group_id = two_zeros;
}

-- MQRC_PROPERTY_NOT_AVAILABLE, as the constants of the example have it.
abbrev no_more : MqReturn
no_more = record { mqcc = pos 2; mqrc = constants0.mqrc_property_not_available }

abbrev two_properties : MessageHandle
two_properties = record {
  properties = ("colour", string "red") ∷ ("size", uint8 7) ∷ [];
  end = no_more;
}

-- The order in which the decoded map gives them.
abbrev other_order : List (String × Value)
other_order = ("size", uint8 7) ∷ ("colour", string "red") ∷ []

abbrev carrying : Libraries
carrying = record no_codec {
  codec =
      codec_of
        (travel shifting (sent_with no_codec both_ways wants_answer other_order (1 ∷ 2 ∷ [])));
}

two_properties-AreNew : AreNew [] two_properties.properties
unfolding nats_mq.Prelude.Dict.lookup
two_properties-AreNew = (refl, (refl, tt))

nats_to_mq_message-mq_to_nats_message_example :
    (mq_to_nats_message carrying both_ways
        (some wants_answer)
        (some two_properties)
        (1 ∷ 2 ∷ [])
        2
        true
      ≡ done (9 ∷ [], "answers"))
    × (nats_to_mq_message carrying both_ways accepting (some (9 ∷ [])) "answers" true
        ≡ done (
          record (renewed constants0 wants_answer) {
            reply_to_q = "elsewhere";
            reply_to_q_mgr = "QM2";
          },
          some (("size", int8 (pos 7)) ∷ ("colour", string "red") ∷ []),
          some (1 ∷ 2 ∷ []),
        ))
    × Permᴰ {A = String × Value}
        (("colour", string "red") ∷ ("size", int8 (pos 7)) ∷ [])
        (("size", int8 (pos 7)) ∷ ("colour", string "red") ∷ [])
unfolding reply_to_nats nats_mq.Convert.Reply.reply_to_mq nats_mq.Convert.Reply.reply_channel_to_mq
    nats_mq.Convert.Reply.set_reply nats_mq.Prelude.Dict.lookup
nats_to_mq_message-mq_to_nats_message_example =
    nats_to_mq_message-mq_to_nats_message carrying both_ways accepting wants_answer two_properties
      other_order (1 ∷ 2 ∷ []) (9 ∷ []) zero_ids wants_answer_survives two_properties-AreNew
      (tt, (omega arith, tt)) refl refl (λ name v. refl) refl (swap refl refl) refl
