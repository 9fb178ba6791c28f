-- ===== src/Connector/Acquired.antt =====
-- What the actions of a connector of nats-mq/core acquire and give back, and what Start acquires.
use nats_mq.Prelude.{
  ℕ, ◌≡◌, Bool, false, List, [], ◌∷◌, ◌++◌, Option, none, some, arith, ◌==◌, if◌then◌else◌, inl,
  inr,
}
use nats_mq.Error.{ok, err, Result-cases}
use nats_mq.Connector.Services.{
  input_shared, queue_target, Listener, callback, polling, Connector, Services, Action, connected,
  opened, subscribed_topic, subscribed, listening, stopped, unsubscribed, closed, disconnected, Run,
}
use nats_mq.Connector.Steps.{
  connect_to_queue_manager, connect_to_mq, connect_to_queue, connect_to_topic, subscribe_to_topic,
  set_up_listener, subscribe_to_nats, subscribe_to_channel, count_connect,
}
use nats_mq.Connector.Kinds.{require_nats, require_stan}
use nats_mq.Connector.Create.{
  Kind, queue2nats, queue2stan, nats2queue, nats2topic, stan2queue, stan2topic, topic2nats,
  topic2stan, start,
}
use nats_mq.Connector.Lifecycle.{listens}
use nats_mq.Connector.Release.{from_topic, each}

-- What can be open: a queue manager, an object or a subscription of a topic, a subscription of NATS or
-- streaming, and a listener.
pub data Held : Type 0 where
  manager object subscription listener : ℕ → Held

abbrev pub same : Held → Held → Bool
same (manager a) (manager b) = a == b
same (object a) (object b) = a == b
same (subscription a) (subscription b) = a == b
same (listener a) (listener b) = a == b
same _ _ = false

-- Giving back what was acquired last under this name.
abbrev pub give_back : Held → List Held → List Held
give_back x [] = []
give_back x (y ∷ ys) = let rest = give_back x ys in if same x y then ys else y ∷ rest

abbrev pub handle_of : Listener → ℕ
handle_of (callback m) = m
handle_of (polling m) = m

-- What an action does to what is open.
abbrev pub apply : Action → List Held → List Held
apply (connected q) held = manager q ∷ held
apply (opened h) held = object h ∷ held
apply (subscribed_topic h) held = object h ∷ held
apply (subscribed n) held = subscription n ∷ held
apply (listening m) held = listener m ∷ held
apply (stopped l) held = give_back (listener (handle_of l)) held
apply (unsubscribed n) held = give_back (subscription n) held
apply (closed h) held = give_back (object h) held
apply (disconnected q) held = give_back (manager q) held

-- What is open after a trace, which has the latest action first.
abbrev pub open_after : List Action → List Held
open_after [] = []
open_after (a ∷ trace) = apply a (open_after trace)

abbrev pub acquired_listener : Option Listener → List Action
acquired_listener none = []
acquired_listener (some l) = listening (handle_of l) ∷ []

-- What Start acquires for what the connector then holds, with the latest action first.
abbrev pub acquired : Kind → Connector → List Action → List Action
acquired k c before =
    (if listens k then acquired_listener c.listener else each c.sub subscribed)
    ++ ((if from_topic k then each c.mq_sub subscribed_topic else [])
        ++ (each c.target opened ++ (each c.qmgr connected ++ before)))

listener_trace :
    (s : Services) (b : Bool) (q h : ℕ) (r : Run)
    → let (answer, r') = set_up_listener s b q h r in
      (r'.conn ≡ r.conn)
      × (elim answer [ ok l ↦ listening (handle_of l) ∷ r.trace | err e ↦ r'.trace ] ≡ r'.trace)
unfolding set_up_listener
listener_trace s b q h r = ground arith

pub start-acquired :
    (k : Kind) (s : Services) (r : Run)
    → (start k s r).0 ≡ ok tt
    → (start k s r).1.trace ≡ acquired k (start k s r).1.conn r.trace
unfolding start connect_to_mq connect_to_queue connect_to_topic subscribe_to_topic subscribe_to_nats
    subscribe_to_channel count_connect require_nats require_stan
start-acquired queue2nats s r e =
    let c = r.conn.config in
    elim (Result-cases (connect_to_queue_manager s c.mq)) [
      | inl (x, p) ↦ ground arith
      | inr (q, p) ↦ elim (Result-cases (s.open_object q (queue_target c.queue input_shared))) [
        | inl (x, p') ↦ ground arith
        | inr (h, p') ↦
            let r' : Run = record {
              conn = record r.conn { qmgr = some q; target = some h };
              trace = opened h ∷ connected q ∷ r.trace;
            } in
            ground (arith, listener_trace s c.use_polling q h r')
      ]
    ]
start-acquired queue2stan s r e =
    let c = r.conn.config in
    elim (Result-cases (connect_to_queue_manager s c.mq)) [
      | inl (x, p) ↦ ground arith
      | inr (q, p) ↦ elim (Result-cases (s.open_object q (queue_target c.queue input_shared))) [
        | inl (x, p') ↦ ground arith
        | inr (h, p') ↦
            let r' : Run = record {
              conn = record r.conn { qmgr = some q; target = some h };
              trace = opened h ∷ connected q ∷ r.trace;
            } in
            ground (arith, listener_trace s c.use_polling q h r')
      ]
    ]
start-acquired nats2queue s r e = ground arith
start-acquired nats2topic s r e = ground arith
start-acquired stan2queue s r e = ground arith
start-acquired stan2topic s r e = ground arith
start-acquired topic2nats s r e =
    let c = r.conn.config in
    elim (Result-cases (connect_to_queue_manager s c.mq)) [
      | inl (x, p) ↦ ground arith
      | inr (q, p) ↦ elim (Result-cases (s.sub_topic q c.topic)) [
        | inl (x, p') ↦ ground arith
        | inr ((t, m), p') ↦
            let r' : Run = record {
              conn = record r.conn { qmgr = some q; target = some t; mq_sub = some m };
              trace = subscribed_topic m ∷ opened t ∷ connected q ∷ r.trace;
            } in
            ground (arith, listener_trace s c.use_polling q t r')
      ]
    ]
start-acquired topic2stan s r e =
    let c = r.conn.config in
    elim (Result-cases (connect_to_queue_manager s c.mq)) [
      | inl (x, p) ↦ ground arith
      | inr (q, p) ↦ elim (Result-cases (s.sub_topic q c.topic)) [
        | inl (x, p') ↦ ground arith
        | inr ((t, m), p') ↦
            let r' : Run = record {
              conn = record r.conn { qmgr = some q; target = some t; mq_sub = some m };
              trace = subscribed_topic m ∷ opened t ∷ connected q ∷ r.trace;
            } in
            ground (arith, listener_trace s c.use_polling q t r')
      ]
    ]
