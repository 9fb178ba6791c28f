-- ===== src/Convert/Header/RoundTrip.antt =====
-- A descriptor that goes to NATS and back.
use nats_mq.Prelude.{ℕ, ◌<◌, ◌≡◌, ◌⊎◌, subst, List, length}
use nats_mq.Convert.Mqmd.{Mqmd, MqConstants}
use nats_mq.Convert.Bytes.{copy_byte_array, copy_byte_array_if_not_empty}
use nats_mq.Convert.Bytes.RoundTrip.{zeros, NonzeroHead, copy_byte_array_round_trip}
use nats_mq.Convert.Header.{map_mqmd_to_header, map_header_to_mqmd}

-- A byte field of the given length that trimming and padding keep.
pub record Survives (size : ℕ) (id : List ℕ) : Type 0 where
  pub sized : length id ≡ size
  pub some_bytes : 0 < size
  pub shape : NonzeroHead id ⊎ (id ≡ zeros size)

field-Survives :
    (size : ℕ) (id def : List ℕ)
    → Survives size id
    → def ≡ zeros size
    → copy_byte_array_if_not_empty (copy_byte_array id) def size ≡ id
field-Survives size id def s e = rw e (
    subst (λ n. copy_byte_array_if_not_empty (copy_byte_array id) (zeros n) n ≡ id) s.sized
      ((copy_byte_array_round_trip id (rw s.sized s.some_bytes)).1 (rw s.sized s.shape)))

-- The documented form of the descriptor that ibmmq.NewMQMD returns: its byte fields are zeros.
pub record ZeroIds (mq : MqConstants) : Type 0 where
  pub msg_id : mq.new_mqmd.msg_id ≡ zeros mq.mq_msg_id_length
  pub correl_id : mq.new_mqmd.correl_id ≡ zeros mq.mq_correl_id_length
  pub accounting_token : mq.new_mqmd.accounting_token ≡ zeros mq.mq_accounting_token_length
  pub group_id : mq.new_mqmd.group_id ≡ zeros mq.mq_group_id_length

pub record IdsSurvive (mq : MqConstants) (md : Mqmd) : Type 0 where
  pub msg_id : Survives mq.mq_msg_id_length md.msg_id
  pub correl_id : Survives mq.mq_correl_id_length md.correl_id
  pub accounting_token : Survives mq.mq_accounting_token_length md.accounting_token
  pub group_id : Survives mq.mq_group_id_length md.group_id

-- The original, but for version, type, expiry, persistence, backout count, date and time, which are
-- those of a new descriptor.
abbrev pub renewed : MqConstants → Mqmd → Mqmd
renewed mq md = record md {
  version = mq.new_mqmd.version;
  msg_type = mq.new_mqmd.msg_type;
  expiry = mq.new_mqmd.expiry;
  persistence = mq.new_mqmd.persistence;
  backout_count = mq.new_mqmd.backout_count;
  put_date = mq.new_mqmd.put_date;
  put_time = mq.new_mqmd.put_time;
}

-- A descriptor mapped to a header and back is the original but for version, type, expiry, persistence,
-- backout count, date and time, which are those of a new descriptor, if its four byte fields have their lengths and each is all zeros or starts with a nonzero byte.
pub map_header_to_mqmd-map_mqmd_to_header :
    (mq : MqConstants) (md : Mqmd)
    → ZeroIds mq
    → IdsSurvive mq md
    → map_header_to_mqmd mq (map_mqmd_to_header md) ≡ renewed mq md
unfolding map_header_to_mqmd map_mqmd_to_header
map_header_to_mqmd-map_mqmd_to_header mq md z s = rw (
  field-Survives _ _ _ s.msg_id z.msg_id,
  field-Survives _ _ _ s.correl_id z.correl_id,
  field-Survives _ _ _ s.accounting_token z.accounting_token,
  field-Survives _ _ _ s.group_id z.group_id,
)
