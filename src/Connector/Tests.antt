-- ===== src/Connector/Tests.antt =====
-- Runs of the connectors and of the message handlers, and their properties at concrete inputs.
use nats_mq.Prelude.{
  arith, ◌+◌, ◌%◌, ◌≡◌, refl, true, false, ◌&&◌, List, [], ◌∷◌, none, some, if◌then◌else◌,
}
use nats_mq.Prelude.Int.{pos, negsuc}
use nats_mq.Error.{nats, ok, err, mq, requires_nats}
use nats_mq.Stats.{ConnectorStats, add_message_in, add_connect, int64_mod}
use nats_mq.Message.Data.{new_bridge_message}
use nats_mq.Convert.Messages.{Libraries, mq_to_nats_message, nats_to_mq_message}
use nats_mq.Convert.Reply.{ReplyToInfo}
use nats_mq.Connector.Services.{
  connected, durable_name, start_with_last_received, manual_ack_mode, Run, polling,
}
use nats_mq.Connector.Steps.{stan_options, connect_to_queue_manager}
use nats_mq.Connector.Create.{queue2nats, topic2nats, start, shutdown, kind_of}
use nats_mq.Connector.Lifecycle.{has, attached, start-ok}
use nats_mq.Connector.Release.{failed_topic_start_leaks}
use nats_mq.Connector.Listen.{
  Effect, publish, commit, connector_error, back, Handled, CallbackCodes, to_subject, FromMq,
  publication, mq_callback_function, nats_callback, stan_callback,
}
use nats_mq.Connector.Delivery.{
  has_ack, is_done, converted, mq_callback_counts, is_message, stan_callback_acks,
}
use nats_mq.Connector.Polling.{
  Round, Polled, make_buffer, write, poll_once, poll, polling_goroutine,
}
use nats_mq.Connector.Polled.{
  IsProper, AllProper, polled, deliver, calls, polling_goroutine-deliver,
}
use nats_mq.Conf.{ConnectorConfig}
use nats_mq.Connector.Ledger.{ledger, all_due, gone_through, polling_goroutine-ledger}
use nats_mq.Connector.Locked.{NilCalls, mq_callback, mq_callback-shutdown}
use nats_mq.Samples.{
  numbers, full, shifting, stats0, config0, fresh, answering, refusing_topics, refused, mqmd0,
  constants0, codec_of, accepting,
}

known_kind : kind_of "Queue2NATS" ≡ some queue2nats
unfolding kind_of
known_kind = refl

durable_from_last :
    stan_options (record config0 { durable_name = "d"; start_at_sequence = negsuc 0 })
    ≡ durable_name "d" ∷ start_with_last_received ∷ manual_ack_mode ∷ []
unfolding stan_options
durable_from_last = refl

start_runs : (start queue2nats answering fresh).0 ≡ ok tt
unfolding start nats_mq.Connector.Steps.connect_to_mq nats_mq.Connector.Steps.connect_to_queue
    nats_mq.Connector.Steps.connect_to_queue_manager nats_mq.Connector.Steps.set_up_listener
    nats_mq.Connector.Steps.count_connect nats_mq.Connector.Kinds.require_nats
start_runs = refl

start_needs_nats :
    (start queue2nats (record answering { check_nats = false }) fresh).0
    ≡ err (requires_nats "Queue:in to NATS:out")
unfolding start nats_mq.Connector.Kinds.require_nats
start_needs_nats = refl

start-ok_example :
    let c = (start queue2nats answering fresh).1.conn in
    (has c.qmgr ≡ true)
    × (has c.target ≡ true)
    × (attached queue2nats c ≡ true)
    × (c.stats ≡ add_connect stats0)
start-ok_example = start-ok queue2nats answering fresh start_runs

-- A durable streaming subscription that is held with its queue and queue manager.
abbrev durable_run : Run
durable_run = record {
  conn = record fresh.conn {
    config = record config0 { durable_name = "d" };
    qmgr = some 7;
    target = some 8;
    sub = some 14;
  };
  trace = [];
}

failed_topic_start_leaks_example :
    let r' = (start topic2nats refusing_topics fresh).1 in
    ((start topic2nats refusing_topics fresh).0 ≡ err (mq refused))
    × (r'.trace ≡ connected 7 ∷ [])
    × ((shutdown topic2nats answering r').1.trace ≡ r'.trace)
    × ((shutdown topic2nats answering r').1.conn.qmgr ≡ some 7)
failed_topic_start_leaks_example =
    failed_topic_start_leaks topic2nats refusing_topics answering fresh 7 (mq refused) refl refl
      refl (unfold connect_to_queue_manager in refl) refl

abbrev codes0 : CallbackCodes
codes0 = record { mqcc_ok = pos 0; mqrc_no_msg_available = pos 2033 }

abbrev libraries : Libraries
libraries = record { mq = constants0; codec = codec_of (new_bridge_message []); floats = shifting }

-- A message without error that NATS does not take.
abbrev unpublished : FromMq
unpublished = record {
  mq_err = none;
  event_call = false;
  md = some mqmd0;
  handle = none;
  buffer = 1 ∷ 2 ∷ [];
  publish_error = some (nats 1);
  commit_error = none;
  elapsed = 5;
}

abbrev backed_out : Handled
backed_out = record {
  stats = record stats0 { messages_in = 1; bytes_in = 2 };
  effects = publish "out" (1 ∷ 2 ∷ []) ∷ back ∷ [];
}

unpublished_is_backed_out :
    mq_callback_function libraries numbers [] codes0 (to_subject "out") true stats0 unpublished
    ≡ some backed_out
unfolding mq_callback_function mq_to_nats_message nats_mq.Convert.Reply.reply_to_nats
    nats_mq.Stats.add_message_in
unpublished_is_backed_out = refl

mq_callback_counts_example :
    (backed_out.stats.messages_in ≡ (0 + 1) % int64_mod)
    × (backed_out.stats.bytes_in ≡ (0 + 2) % int64_mod)
    × (backed_out.stats.messages_out ≡ (
        if is_message codes0 unpublished
          && is_done (converted libraries [] true unpublished)
          && false
          && true
        then (0 + 1) % int64_mod
        else 0))
mq_callback_counts_example =
    mq_callback_counts libraries numbers [] codes0 (to_subject "out") true stats0 unpublished
      backed_out unpublished_is_backed_out

-- A message that goes through to a connector with a full histogram.
abbrev busy : ConnectorStats
busy = record stats0 { histogram = full }

abbrev published : FromMq
published = record unpublished { publish_error = none; elapsed = 30 }

-- A streaming message that MQ does not take stays without acknowledgement.
abbrev not_put : Handled
not_put = record {
  stats = record stats0 { messages_in = 1; bytes_in = 1 };
  effects = Effect.put mqmd0 none (some (1 ∷ [])) ∷ [];
}

stan_not_put :
    stan_callback libraries numbers [] accepting true stats0 (some (1 ∷ [])) 5 (some (nats 1))
    ≡ some not_put
unfolding stan_callback nats_to_mq_message nats_mq.Convert.Reply.reply_to_mq
    nats_mq.Convert.Reply.set_reply nats_mq.Stats.add_message_in
stan_not_put = refl

stan_callback_acks_example :
    let delivered =
      is_done (nats_to_mq_message libraries [] accepting (some (1 ∷ [])) "" false) && false in
    (has_ack not_put.effects ≡ delivered)
    × (not_put.stats.messages_out ≡ (if delivered then (0 + 1) % int64_mod else 0))
stan_callback_acks_example =
    stan_callback_acks libraries numbers [] accepting true stats0 (some (1 ∷ [])) 5 (some (nats 1))
      not_put stan_not_put

nats_not_put :
    nats_callback libraries numbers [] accepting true stats0 (some (1 ∷ [])) "" 5 (some (nats 1))
    ≡ some not_put
unfolding nats_callback nats_to_mq_message nats_mq.Convert.Reply.reply_to_mq
    nats_mq.Convert.Reply.set_reply nats_mq.Stats.add_message_in
nats_not_put = refl

-- Two rounds of a goroutine with a buffer of four bytes: nothing came, then a message that is not
-- published, when `done` is closed.
abbrev two_rounds : List Round
two_rounds =
    record {
      got = record {
        get_error = some (record { mqcc = pos 2; mqrc = pos 2033 });
        md = some mqmd0;
        handle = none;
        bytes = [];
        len = 0;
        publish_error = none;
        commit_error = none;
        elapsed = 0;
      };
      done = false;
    }
    ∷ record {
      got = record {
        get_error = none;
        md = some mqmd0;
        handle = none;
        bytes = 1 ∷ 2 ∷ [];
        len = 2;
        publish_error = some (nats 1);
        commit_error = none;
        elapsed = 5;
      };
      done = true;
    }
    ∷ []

abbrev small_buffer : ConnectorConfig
small_buffer = record config0 { incoming_buffer_size = pos 4; exclude_headers = true }

polling_goroutine-deliver_example :
    polling_goroutine libraries numbers [] codes0 (to_subject "out") small_buffer two_rounds stats0
    ≡ polled true
        (deliver libraries numbers [] codes0 (to_subject "out") true (calls two_rounds) stats0)
polling_goroutine-deliver_example =
    polling_goroutine-deliver libraries numbers [] codes0 (to_subject "out") small_buffer 4
      two_rounds stats0 refl
      (unfold AllProper in unfold IsProper in ((refl, omega arith), ((refl, omega arith), tt)))

abbrev after_two_rounds : Polled
after_two_rounds = record { stats = backed_out.stats; effects = backed_out.effects; ended = true }

two_rounds_run :
    polling_goroutine libraries numbers [] codes0 (to_subject "out") small_buffer two_rounds stats0
    ≡ some after_two_rounds
unfolding polling_goroutine make_buffer poll poll_once write mq_callback_function mq_to_nats_message
    nats_mq.Convert.Reply.reply_to_nats nats_mq.Stats.add_message_in
two_rounds_run = refl

-- Then the publication succeeds, but Cmit fails.
abbrev three_rounds : List Round
three_rounds =
    record {
      got = record {
        get_error = none;
        md = some mqmd0;
        handle = none;
        bytes = 3 ∷ [];
        len = 1;
        publish_error = none;
        commit_error = some (nats 2);
        elapsed = 5;
      };
      done = false;
    }
    ∷ two_rounds

abbrev after_three_rounds : Polled
after_three_rounds = record {
  stats = add_message_in 2 (add_message_in 1 stats0);
  effects =
      publish "out" (3 ∷ [])
      ∷ commit
      ∷ connector_error (nats 2)
      ∷ publish "out" (1 ∷ 2 ∷ [])
      ∷ back
      ∷ [];
  ended = true;
}

three_rounds_run :
    polling_goroutine libraries numbers [] codes0
      (to_subject "out")
      small_buffer
      three_rounds
      stats0
    ≡ some after_three_rounds
unfolding polling_goroutine make_buffer poll poll_once write mq_callback_function mq_to_nats_message
    nats_mq.Convert.Reply.reply_to_nats nats_mq.Stats.add_message_in publication
three_rounds_run = refl

polling_goroutine-ledger_example :
    (ledger [] after_three_rounds.effects
      ≡ all_due libraries [] codes0 (to_subject "out") true (calls three_rounds))
    × (after_three_rounds.stats.messages_out
        ≡ (0 + gone_through libraries [] codes0 (to_subject "out") true (calls three_rounds))
          % int64_mod)
unfolding add_message_in
polling_goroutine-ledger_example =
    polling_goroutine-ledger libraries numbers [] codes0 (to_subject "out") small_buffer 4
      three_rounds stats0 after_three_rounds refl
      (unfold AllProper in
        unfold IsProper in ((refl, omega arith), ((refl, omega arith), ((refl, omega arith), tt))))
      (omega arith) three_rounds_run

-- A connector that listens to a queue.
abbrev listening_run : Run
listening_run = record {
  conn = record fresh.conn { qmgr = some 7; target = some 8; listener = some (polling 9) };
  trace = [];
}

abbrev nil_panics : NilCalls
nil_panics = record { cmit = none; back = none }

mq_callback-shutdown_example :
    mq_callback libraries numbers [] nil_panics codes0
      (to_subject "out")
      (shutdown queue2nats answering listening_run).1.conn
      published
    ≡ record { effects = publish "out" (1 ∷ 2 ∷ []) ∷ []; outcome = none }
unfolding publication nats_mq.Convert.Reply.reply_to_nats
mq_callback-shutdown_example =
    mq_callback-shutdown libraries numbers [] nil_panics codes0 (to_subject "out") queue2nats
      answering listening_run published refl refl refl refl
