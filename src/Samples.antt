-- ===== src/Samples.antt =====
-- Values that the tests share: arithmetic in place of the float hardware, services that answer, a
-- connector, a descriptor and a codec for one message.
use nats_mq.Prelude.{
  ℕ, refl, ◌≤◌, ◌^◌, if◌then◌else◌, arith, ◌+◌, ◌-◌, ◌*◌, ◌/◌, true, false, [], ◌∷◌, none, ltb,
  ◌==◌,
}
use nats_mq.Prelude.Int.{pos, negsuc}
use nats_mq.Error.{MqReturn, ok, err, mq}
use nats_mq.Float.{FloatOps}
use nats_mq.Histogram.{Bin, Histogram}
use nats_mq.Histogram.Counts.{Exact}
use nats_mq.Histogram.Steady.{Bounded, IsSteady}
use nats_mq.Conf.{ConnectorConfig, empty_connector}
use nats_mq.Stats.{ConnectorStats}
use nats_mq.Message.Data.{BridgeMessage, Codec}
use nats_mq.Message.Property.{FloatConv}
use nats_mq.Convert.Mqmd.{Mqmd, MqConstants}
use nats_mq.Convert.Properties.{HandleCalls}
use nats_mq.Connector.Services.{Connector, Services, Run}

-- Numbers stand for floats, and quotients are at most 2 ^ 64.
abbrev pub numbers : FloatOps
numbers = record {
  add = λ a b. a + b;
  sub = λ a b. a - b;
  mul = λ a b. a * b;
  div = λ a b. if ltb (a / b) 18446744073709551616 then a / b else 18446744073709551616;
  lt = ltb;
  eq = ◌==◌;
  of_int = λ n. n;
  zero_f = 0;
  one_f = 1;
  minus_one = 0;
  huge = 10 ^ 99;
}

abbrev pub shifting : FloatConv
shifting = record { widen = λ b. b * 4294967296; narrow = λ b. b / 4294967296 }

abbrev pub stats0 : ConnectorStats
stats0 = record {
  name = "Queue:in to NATS:out";
  id = "c1";
  connected = false;
  connects = 0;
  disconnects = 0;
  bytes_in = 0;
  bytes_out = 0;
  messages_in = 0;
  messages_out = 0;
  request_count = 0;
  moving_average = 0;
  quintile50 = 0;
  quintile75 = 0;
  quintile90 = 0;
  quintile95 = 0;
  histogram = record { bins = []; max_bins = 60; total = 0 };
}

abbrev pub config0 : ConnectorConfig
config0 = record empty_connector { id = "c1"; queue = "in"; topic = "news"; subject = "out" }

abbrev pub idle : Connector
idle = record {
  config = config0;
  stats = stats0;
  qmgr = none;
  target = none;
  mq_sub = none;
  sub = none;
  listener = none;
}

abbrev pub fresh : Run
fresh = record { conn = idle; trace = [] }

abbrev pub answering : Services
answering = record {
  check_nats = true;
  check_stan = true;
  stan_connected = true;
  connx = λ name options. (7, none);
  mqcc_warning = pos 1;
  mqrc_ssl_already_initialized = pos 2391;
  open_object = λ q target. ok 8;
  sub_topic = λ q name. ok (9, 10);
  crt_mh = λ q. ok 11;
  register_cb = λ h. none;
  ctl_start = λ q. none;
  nats_subscribe = λ subject. ok 12;
  nats_queue_subscribe = λ subject queue. ok 13;
  stan_subscribe = λ channel options. ok 14;
  close_object = λ h. none;
}

abbrev pub refused : MqReturn
refused = record { mqcc = pos 2; mqrc = pos 2035 }

abbrev pub refusing_topics : Services
refusing_topics = record answering { sub_topic = λ q name. err (mq refused) }

abbrev pub mqmd0 : Mqmd
mqmd0 = record {
  version = pos 1;
  report = pos 0;
  msg_type = pos 8;
  expiry = negsuc 0;
  feedback = pos 0;
  encoding = pos 546;
  coded_char_set_id = pos 0;
  format = "";
  priority = negsuc 0;
  persistence = pos 2;
  msg_id = 0 ∷ 0 ∷ [];
  correl_id = 0 ∷ 0 ∷ [];
  backout_count = pos 0;
  reply_to_q = "";
  reply_to_q_mgr = "";
  user_identifier = "";
  accounting_token = 0 ∷ 0 ∷ [];
  appl_identity_data = "";
  put_appl_type = pos 0;
  put_appl_name = "";
  put_date = "";
  put_time = "";
  appl_origin_data = "";
  group_id = 0 ∷ 0 ∷ [];
  msg_seq_number = pos 1;
  offset = pos 0;
  msg_flags = pos 0;
  original_length = negsuc 0;
}

-- Byte fields of two bytes.
abbrev pub constants0 : MqConstants
constants0 = record {
  new_mqmd = mqmd0;
  mq_msg_id_length = 2;
  mq_correl_id_length = 2;
  mq_accounting_token_length = 2;
  mq_group_id_length = 2;
  mqrc_property_not_available = pos 2471;
}

-- A descriptor whose message id ends in a zero.
abbrev pub incoming : Mqmd
incoming = record mqmd0 { msg_id = 5 ∷ 0 ∷ []; priority = pos 4 }

-- A codec that knows one message.
abbrev pub codec_of : BridgeMessage → Codec
codec_of msg = record { encode_bytes = λ m. ok (9 ∷ []); decode_bytes = λ b. ok msg }

abbrev pub accepting : HandleCalls
accepting = record { crt_mh = none; set_mp = λ name v. none }

abbrev pub bin : ℕ → ℕ → Bin
bin v c = record { value = v; count = c }

abbrev pub full : Histogram
full = record { bins = bin 10 1 ∷ bin 12 3 ∷ bin 50 1 ∷ []; max_bins = 3; total = 5 }

abbrev pub AtMost : ℕ → ℕ → Type 0
AtMost m a = a ≤ 18446744073709551616

pub numbers-Exact : Exact numbers (λ n. n)
numbers-Exact = record { one = refl; plus = λ p q small. refl }

pub numbers-Bounded : Bounded numbers (λ n. n) AtMost
numbers-Bounded = record {
  near = λ m a b low va vb. ground arith;
  mean = λ m a p b q low va vb cp cq small. ground arith;
  more = λ m n a le v. v;
  of_int = λ n low. omega (arith, low);
}

pub full-IsSteady : IsSteady (λ n. n) AtMost full
full-IsSteady = (
  omega arith,
  omega arith,
  refl,
  (omega arith, omega arith, (omega arith, omega arith, (omega arith, omega arith, tt))),
)
