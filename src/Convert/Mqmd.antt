-- ===== src/Convert/Mqmd.antt =====
-- What nats-mq/core/msgconv.go uses of the MQ library: the message descriptor, the lengths of its
-- byte fields, message handles and the calls that read and write the properties of one. The library
-- is not part of the repository, so its constants and calls are the fields of a parameter.
use nats_mq.Prelude.{ℕ, String, List}
use nats_mq.Prelude.Int.{ℤ}

-- ibmmq.MQMD, as far as the source reads and writes it.
pub record Mqmd : Type 0 where
  pub version : ℤ
  pub report : ℤ
  pub msg_type : ℤ
  pub expiry : ℤ
  pub feedback : ℤ
  pub encoding : ℤ
  pub coded_char_set_id : ℤ
  pub format : String
  pub priority : ℤ
  pub persistence : ℤ
  pub msg_id : List ℕ
  pub correl_id : List ℕ
  pub backout_count : ℤ
  pub reply_to_q : String
  pub reply_to_q_mgr : String
  pub user_identifier : String
  pub accounting_token : List ℕ
  pub appl_identity_data : String
  pub put_appl_type : ℤ
  pub put_appl_name : String
  pub put_date : String
  pub put_time : String
  pub appl_origin_data : String
  pub group_id : List ℕ
  pub msg_seq_number : ℤ
  pub offset : ℤ
  pub msg_flags : ℤ
  pub original_length : ℤ

-- The library's constants, and the descriptor that ibmmq.NewMQMD returns.
pub record MqConstants : Type 0 where
  pub new_mqmd : Mqmd
  pub mq_msg_id_length : ℕ
  pub mq_correl_id_length : ℕ
  pub mq_accounting_token_length : ℕ
  pub mq_group_id_length : ℕ
  pub mqrc_property_not_available : ℤ
