-- ===== src/Convert/Reply.antt =====
-- The reply-to information that connectors register, and the names that it gives replies
-- (nats-mq/core/bridge.go and the first parts of MQToNATSMessage and NATSToMQMessage).
use nats_mq.Prelude.{String, ◌&&◌, Option, none, some, ◌<>◌, is_set, if◌then◌else◌}
use nats_mq.Prelude.Dict.{Dict, lookup, insert}
use nats_mq.Conf.{ConnectorConfig}
use nats_mq.Convert.Mqmd.{Mqmd}

-- bridge.replyToInfo
abbrev pub ReplyToInfo : Type 0
ReplyToInfo = Dict ConnectorConfig

unfoldable pub register_reply_info : String → ConnectorConfig → ReplyToInfo → ReplyToInfo
register_reply_info desc config info = insert desc config info

-- replySubject and replyChannel of MQToNATSMessage, from the reply queue and its manager.
abbrev pub reply_names : Option ConnectorConfig → String × String
reply_names none = ("", "")
reply_names (some c) = if is_set c.subject then (c.subject, "") else ("", c.channel)

unfoldable pub reply_for_queue : ReplyToInfo → String → String → String × String
reply_for_queue info q mgr =
    if is_set q && is_set mgr then reply_names (lookup ("Q:" <> q <> "@" <> mgr) info) else ("", "")

abbrev pub mqmd_reply : Option Mqmd → String × String
mqmd_reply none = ("", "")
mqmd_reply (some md) = (md.reply_to_q, md.reply_to_q_mgr)

unfoldable pub reply_to_nats : ReplyToInfo → Option Mqmd → String × String
unfolding reply_for_queue
reply_to_nats info mqmd = let (q, mgr) = mqmd_reply mqmd in reply_for_queue info q mgr

-- if ok && connectTo.Queue != "" { replyQ = ...; replyQMgr = ... }
abbrev pub reply_queue : Option ConnectorConfig → String × String → String × String
reply_queue none before = before
reply_queue (some c) before = if is_set c.queue then (c.queue, c.mq.queue_manager) else before

-- connectTo, ok := replyToInfo["S:"+replyTo]; if !ok { connectTo, ok = replyToInfo["C:"+replyTo] }
abbrev pub or_channel : Option ConnectorConfig → Option ConnectorConfig → Option ConnectorConfig
or_channel none other = other
or_channel (some c) other = some c

unfoldable pub reply_to_mq : ReplyToInfo → String → String × String
reply_to_mq info reply_to =
    if is_set reply_to
    then reply_queue (or_channel (lookup ("S:" <> reply_to) info) (lookup ("C:" <> reply_to) info))
        ("", "")
    else ("", "")

-- The header's channel overrides the queue that the reply subject gave.
unfoldable pub reply_channel_to_mq : ReplyToInfo → String → String × String → String × String
reply_channel_to_mq info channel before =
    if is_set channel then reply_queue (lookup ("C:" <> channel) info) before else before

-- if replyQ != "" { mqmd.ReplyToQ = replyQ; mqmd.ReplyToQMgr = replyQMgr }
unfoldable pub set_reply : String × String → Mqmd → Mqmd
set_reply (q, mgr) md = if is_set q then record md { reply_to_q = q; reply_to_q_mgr = mgr } else md
