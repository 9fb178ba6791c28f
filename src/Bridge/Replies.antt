-- ===== src/Bridge/Replies.antt =====
-- The reply-to information that the connectors register, and what the conversions find in it.
use nats_mq.Prelude.{
  String, ◌≡◌, sym, subst, ◌++◌, refl, Bool, true, false, List, [], ◌∷◌, some, arith, ◌<>◌, is_set,
  str_eq, eq_iff, eq_refl, if◌then◌else◌, inl, inr, Bool-cases,
}
use nats_mq.Prelude.Dict.{lookup, insert, lookup-insert}
use nats_mq.Error.{ok, Result-cases}
use nats_mq.Float.{FloatOps}
use nats_mq.Conf.{ConnectorConfig}
use nats_mq.Convert.Mqmd.{Mqmd}
use nats_mq.Convert.Reply.{ReplyToInfo, register_reply_info, reply_to_nats, reply_to_mq}
use nats_mq.Connector.Services.{Connector}
use nats_mq.Connector.Create.{
  Kind, queue2nats, queue2stan, nats2queue, nats2topic, stan2queue, stan2topic, topic2nats,
  topic2stan, kind_of, reply_key, create_connector,
}
use nats_mq.Bridge.{Connectors, initialize_connectors}

-- The keys that the connectors' files register for replies, by the type in the configuration: the NATS
-- subject or the streaming channel of a connector that sends to it, and the queue or topic with its
-- queue manager of a connector that puts to MQ.
pub data IsKeyOf (c : ConnectorConfig) : String → Type 0 where
  queue_to_nats : c.kind ≡ "Queue2NATS" → IsKeyOf c ("S:" <> c.subject)
  queue_to_stan : c.kind ≡ "Queue2Stan" → IsKeyOf c ("C:" <> c.channel)
  nats_to_queue : c.kind ≡ "NATS2Queue" → IsKeyOf c ("Q:" <> c.queue <> "@" <> c.mq.queue_manager)
  nats_to_topic : c.kind ≡ "NATS2Topic" → IsKeyOf c ("T:" <> c.topic <> "@" <> c.mq.queue_manager)
  stan_to_queue : c.kind ≡ "Stan2Queue" → IsKeyOf c ("Q:" <> c.queue <> "@" <> c.mq.queue_manager)
  stan_to_topic : c.kind ≡ "Stan2Topic" → IsKeyOf c ("T:" <> c.topic <> "@" <> c.mq.queue_manager)
  topic_to_nats : c.kind ≡ "Topic2NATS" → IsKeyOf c ("S:" <> c.subject)
  topic_to_stan : c.kind ≡ "Topic2Stan" → IsKeyOf c ("C:" <> c.channel)

-- Every entry is the configuration of a connector of a known type under the key of this type.
abbrev pub Registered : ReplyToInfo → Type 0
Registered info = (key : String) (c : ConnectorConfig) → lookup key info ≡ some c → IsKeyOf c key

-- The type that a kind of connector has in the configuration.
abbrev type_of : Kind → String
type_of queue2nats = "Queue2NATS"
type_of queue2stan = "Queue2Stan"
type_of nats2queue = "NATS2Queue"
type_of nats2topic = "NATS2Topic"
type_of stan2queue = "Stan2Queue"
type_of stan2topic = "Stan2Topic"
type_of topic2nats = "Topic2NATS"
type_of topic2stan = "Topic2Stan"

kind_of-type_of : (t : String) (k : Kind) → kind_of t ≡ some k → t ≡ type_of k
unfolding kind_of
kind_of-type_of t k e = ground (
  arith,
  eq_iff t "Queue2NATS",
  eq_iff t "Queue2Stan",
  eq_iff t "NATS2Queue",
  eq_iff t "NATS2Topic",
  eq_iff t "Stan2Queue",
  eq_iff t "Stan2Topic",
  eq_iff t "Topic2NATS",
  eq_iff t "Topic2Stan",
)

reply_key-IsKeyOf :
    (k : Kind) (c : ConnectorConfig) → kind_of c.kind ≡ some k → IsKeyOf c (reply_key k c)
unfolding reply_key
reply_key-IsKeyOf queue2nats c e = queue_to_nats (kind_of-type_of c.kind queue2nats e)
reply_key-IsKeyOf queue2stan c e = queue_to_stan (kind_of-type_of c.kind queue2stan e)
reply_key-IsKeyOf nats2queue c e = nats_to_queue (kind_of-type_of c.kind nats2queue e)
reply_key-IsKeyOf nats2topic c e = nats_to_topic (kind_of-type_of c.kind nats2topic e)
reply_key-IsKeyOf stan2queue c e = stan_to_queue (kind_of-type_of c.kind stan2queue e)
reply_key-IsKeyOf stan2topic c e = stan_to_topic (kind_of-type_of c.kind stan2topic e)
reply_key-IsKeyOf topic2nats c e = topic_to_nats (kind_of-type_of c.kind topic2nats e)
reply_key-IsKeyOf topic2stan c e = topic_to_stan (kind_of-type_of c.kind topic2stan e)

register_reply_info-Registered :
    (k : Kind) (c : ConnectorConfig) (info : ReplyToInfo)
    → kind_of c.kind ≡ some k
    → Registered info
    → Registered (register_reply_info (reply_key k c) c info)
unfolding register_reply_info
register_reply_info-Registered k c info e inv key d found =
    let new = reply_key k c in
    elim (Bool-cases (str_eq new key)) [
      | inl same ↦
          let config : c ≡ d = ground (arith, lookup-insert new key c info) in
          let at : new ≡ key = ground (arith, eq_iff new key) in
          subst (λ x. IsKeyOf x key) config (subst (IsKeyOf c) at (reply_key-IsKeyOf k c e))
      | inr other ↦ inv key d (ground (arith, lookup-insert new key c info))
    ]

abbrev pub to_queue : Kind → Bool
to_queue nats2queue = true
to_queue stan2queue = true
to_queue _ = false

reply_key-to_queue :
    (k : Kind) (c : ConnectorConfig)
    → to_queue k ≡ true
    → reply_key k c ≡ "Q:" <> c.queue <> "@" <> c.mq.queue_manager
unfolding reply_key
reply_key-to_queue nats2queue c h = refl
reply_key-to_queue stan2queue c h = refl
reply_key-to_queue _ c h = cc

lookup-insert_self :
    (key : String) (c : ConnectorConfig) (info : ReplyToInfo)
    → lookup key (insert key c info) ≡ some c
lookup-insert_self key c info = ground (arith, lookup-insert key key c info, eq_refl key)

module _ (f : FloatOps) where
  create_connector-ok :
      (nuid : String) (info : ReplyToInfo) (c : ConnectorConfig) (k : Kind) (conn : Connector)
      (info' : ReplyToInfo)
      → create_connector f nuid info c ≡ ok (k, conn, info')
      → (kind_of c.kind ≡ some k) × (info' ≡ register_reply_info (reply_key k c) c info)
  unfolding create_connector
  create_connector-ok nuid info c k conn info' e = ground arith

  -- initializeConnectors, whether it returns an error or not, leaves reply-to information in which
  -- every entry is the configuration of a connector of one of the eight types, under the key of that
  -- type, if it was so before: S: and the subject for the types to NATS, C: and the channel for those to
  -- streaming, and Q: or T: and the queue or topic, then @ and the queue manager, for those to MQ.
  pub initialize_connectors-Registered :
      (configs : List (String × ConnectorConfig)) (b : Connectors)
      → Registered b.reply_to_info
      → Registered (initialize_connectors f configs b).1.reply_to_info
  unfolding initialize_connectors
  initialize_connectors-Registered [] b inv = inv
  initialize_connectors-Registered ((nuid, c) ∷ configs) b inv =
      elim (Result-cases (create_connector f nuid b.reply_to_info c)) [
        | inl (e, p) ↦ rw (p, initialize_connectors) inv
        | inr ((k, conn, info), p) ↦
            let (known, q) = create_connector-ok nuid b.reply_to_info c k conn info p in
            let b' : Connectors = record {
              connectors = b.connectors ++ (k, conn) ∷ [];
              reply_to_info = info;
            } in
            rw (p, initialize_connectors)
              (initialize_connectors-Registered configs b' (
                subst Registered (sym q)
                  (register_reply_info-Registered k c b.reply_to_info known inv)))
      ]

  -- When CreateConnector has made a connector from NATS or streaming to a queue, a message from MQ that
  -- names this queue and its queue manager for the reply is sent with the connector's subject as its
  -- reply subject, or, if the connector has no subject, with its channel as the header's reply channel.
  pub reply_to_nats-create_connector :
      (nuid : String) (info : ReplyToInfo) (c : ConnectorConfig) (k : Kind) (conn : Connector)
      (info' : ReplyToInfo) (md : Mqmd)
      → create_connector f nuid info c ≡ ok (k, conn, info')
      → to_queue k ≡ true
      → is_set c.queue ≡ true
      → is_set c.mq.queue_manager ≡ true
      → md.reply_to_q ≡ c.queue
      → md.reply_to_q_mgr ≡ c.mq.queue_manager
      → reply_to_nats info' (some md)
        ≡ (if is_set c.subject then (c.subject, "") else ("", c.channel))
  unfolding reply_to_nats register_reply_info reply_key
  reply_to_nats-create_connector nuid info c k conn info' md e kind q mgr eq_q eq_mgr =
      let (known, registered) = create_connector-ok nuid info c k conn info' e in
      ground (arith, reply_key-to_queue k c kind, lookup-insert_self (reply_key k c) c info)

  -- When CreateConnector has made a connector from a queue to a NATS subject, a message from NATS that
  -- names this subject for the reply is put to MQ with the connector's queue and queue manager for the
  -- reply.
  pub reply_to_mq-create_connector :
      (nuid : String) (info : ReplyToInfo) (c : ConnectorConfig) (k : Kind) (conn : Connector)
      (info' : ReplyToInfo)
      → create_connector f nuid info c ≡ ok (k, conn, info')
      → k ≡ queue2nats
      → is_set c.subject ≡ true
      → is_set c.queue ≡ true
      → reply_to_mq info' c.subject ≡ (c.queue, c.mq.queue_manager)
  unfolding reply_to_mq register_reply_info reply_key
  reply_to_mq-create_connector nuid info c k conn info' e kind subject queue =
      let (known, registered) = create_connector-ok nuid info c k conn info' e in
      ground (arith, lookup-insert_self ("S:" <> c.subject) c info)
