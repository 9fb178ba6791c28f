-- ===== src/Convert/Header.antt =====
-- mapMQMDToHeader and mapHeaderToMQMD of nats-mq/core/msgconv.go.
pub mod RoundTrip
use nats_mq.Message.Data.{BridgeHeader}
use nats_mq.Convert.Mqmd.{Mqmd, MqConstants}
use nats_mq.Convert.Bytes.{copy_byte_array, copy_byte_array_if_not_empty}

unfoldable pub map_mqmd_to_header : Mqmd → BridgeHeader
map_mqmd_to_header mqmd = record {
  version = mqmd.version;
  report = mqmd.report;
  msg_type = mqmd.msg_type;
  expiry = mqmd.expiry;
  feedback = mqmd.feedback;
  encoding = mqmd.encoding;
  coded_char_set_id = mqmd.coded_char_set_id;
  format = mqmd.format;
  priority = mqmd.priority;
  persistence = mqmd.persistence;
  msg_id = copy_byte_array mqmd.msg_id;
  correl_id = copy_byte_array mqmd.correl_id;
  backout_count = mqmd.backout_count;
  reply_to_q = mqmd.reply_to_q;
  reply_to_q_mgr = mqmd.reply_to_q_mgr;
  user_identifier = mqmd.user_identifier;
  accounting_token = copy_byte_array mqmd.accounting_token;
  appl_identity_data = mqmd.appl_identity_data;
  put_appl_type = mqmd.put_appl_type;
  put_appl_name = mqmd.put_appl_name;
  put_date = mqmd.put_date;
  put_time = mqmd.put_time;
  appl_origin_data = mqmd.appl_origin_data;
  group_id = copy_byte_array mqmd.group_id;
  msg_seq_number = mqmd.msg_seq_number;
  offset = mqmd.offset;
  msg_flags = mqmd.msg_flags;
  original_length = mqmd.original_length;
  reply_to_channel = "";
}

-- The fields that are not named keep the values of ibmmq.NewMQMD.
unfoldable pub map_header_to_mqmd : MqConstants → BridgeHeader → Mqmd
map_header_to_mqmd mq header =
    let mqmd = mq.new_mqmd in
    record mqmd {
      report = header.report;
      feedback = header.feedback;
      encoding = header.encoding;
      coded_char_set_id = header.coded_char_set_id;
      format = header.format;
      priority = header.priority;
      msg_id = copy_byte_array_if_not_empty header.msg_id mqmd.msg_id mq.mq_msg_id_length;
      correl_id =
          copy_byte_array_if_not_empty header.correl_id mqmd.correl_id mq.mq_correl_id_length;
      reply_to_q = header.reply_to_q;
      reply_to_q_mgr = header.reply_to_q_mgr;
      user_identifier = header.user_identifier;
      accounting_token =
          copy_byte_array_if_not_empty header.accounting_token mqmd.accounting_token
            mq.mq_accounting_token_length;
      appl_identity_data = header.appl_identity_data;
      put_appl_type = header.put_appl_type;
      put_appl_name = header.put_appl_name;
      appl_origin_data = header.appl_origin_data;
      group_id = copy_byte_array_if_not_empty header.group_id mqmd.group_id mq.mq_group_id_length;
      msg_seq_number = header.msg_seq_number;
      offset = header.offset;
      msg_flags = header.msg_flags;
      original_length = header.original_length;
    }
