-- ===== src/Connector/Balance.antt =====
-- What is open after a Start and a Shutdown of nats-mq/core: each action on the outside acquires
-- something or gives something back.
use nats_mq.Prelude.{
  ℕ, ◌≡◌, refl, ap, ◌∙◌, Bool, true, false, List, [], ◌∷◌, ◌++◌, Option, none, some, arith,
  if◌then◌else◌, is_set,
}
use nats_mq.Error.{ok}
use nats_mq.Connector.Services.{
  Listener, callback, polling, Connector, Services, Action, connected, opened, subscribed_topic,
  subscribed, unsubscribed, closed, disconnected, Run,
}
use nats_mq.Connector.Create.{
  Kind, queue2nats, queue2stan, nats2queue, nats2topic, stan2queue, stan2topic, topic2nats,
  topic2stan, start, shutdown,
}
use nats_mq.Connector.Lifecycle.{has, start-ok}
use nats_mq.Connector.Release.{
  each, each_listener, keeps_sub, release_objects, release, Detached, shutdown_releases,
}
use nats_mq.Connector.Acquired.{open_after, apply, acquired, acquired_listener, start-acquired}

open_after-cong :
    (xs ys zs : List Action)
    → open_after ys ≡ open_after zs
    → open_after (xs ++ ys) ≡ open_after (xs ++ zs)
open_after-cong [] ys zs e = e
open_after-cong (x ∷ xs) ys zs e = ap (apply x) (open_after-cong xs ys zs e)

-- What is given back at once leaves nothing.
module _ (before : List Action) where
  open_after-manager :
      (o : Option ℕ)
      → open_after (each o disconnected ++ (each o connected ++ before)) ≡ open_after before
  open_after-manager none = refl
  open_after-manager (some h) = ground arith

  open_after-object :
      (o : Option ℕ) → open_after (each o closed ++ (each o opened ++ before)) ≡ open_after before
  open_after-object none = refl
  open_after-object (some h) = ground arith

  open_after-topic :
      (o : Option ℕ)
      → open_after (each o closed ++ (each o subscribed_topic ++ before)) ≡ open_after before
  open_after-topic none = refl
  open_after-topic (some h) = ground arith

  open_after-subscription :
      (o : Option ℕ)
      → open_after (each o unsubscribed ++ (each o subscribed ++ before)) ≡ open_after before
  open_after-subscription none = refl
  open_after-subscription (some h) = ground arith

  open_after-listener :
      (o : Option Listener)
      → open_after (each_listener o ++ (acquired_listener o ++ before)) ≡ open_after before
  open_after-listener none = refl
  open_after-listener (some (callback m)) = ground arith
  open_after-listener (some (polling m)) = ground arith

  -- A subscription stays while what was acquired before it is given back.
  open_after-kept :
      (q t n : Option ℕ)
      → open_after (
          each q disconnected
          ++ (each t closed
              ++ (each n subscribed ++ (each t opened ++ (each q connected ++ before)))))
        ≡ open_after (each n subscribed ++ before)
  open_after-kept q t n = ground arith

-- What Shutdown does not give back: a durable subscription.
abbrev pub kept : Kind → Connector → List Action
kept k c = if keeps_sub k c then each c.sub subscribed else []

-- What receives messages is given back first, then the subscription of the topic, the object and the
-- queue manager.
nested :
    (q t m : Option ℕ) (received acquires before : List Action)
    → ((trace : List Action) → open_after (received ++ (acquires ++ trace)) ≡ open_after trace)
    → open_after (
        each q disconnected
        ++ (each t closed
            ++ (each m closed
                ++ (received
                    ++ (acquires
                        ++ (each m subscribed_topic
                            ++ (each t opened ++ (each q connected ++ before))))))))
      ≡ open_after before
nested q t m received acquires before h =
    let a = each q connected ++ before in
    let b = each t opened ++ a in
    let c = each m subscribed_topic ++ b in
    let received_back = received ++ (acquires ++ c) in
    let topic_back = open_after-cong (each m closed) received_back c (h c) ∙ open_after-topic b m in
    let object_back =
      open_after-cong (each t closed) (each m closed ++ received_back) b topic_back
      ∙ open_after-object a t in
    open_after-cong (each q disconnected) (each t closed ++ (each m closed ++ received_back)) a
      object_back
    ∙ open_after-manager before q

kept_or_given_back :
    (k : Kind) (c : Connector) (before : List Action) (b : Bool)
    → open_after (
        each c.qmgr disconnected
        ++ (each c.target closed
            ++ ((if b then [] else each c.sub unsubscribed)
                ++ (each c.sub subscribed
                    ++ (each c.target opened ++ (each c.qmgr connected ++ before))))))
      ≡ open_after ((if b then each c.sub subscribed else []) ++ before)
kept_or_given_back k c before true = open_after-kept before c.qmgr c.target c.sub
kept_or_given_back k c before false =
    nested c.qmgr c.target none (each c.sub unsubscribed) (each c.sub subscribed) before
      (λ trace. open_after-subscription trace c.sub)

release-acquired :
    (k : Kind) (c : Connector) (before : List Action)
    → open_after (release k c (acquired k c before)) ≡ open_after (kept k c ++ before)
release-acquired queue2nats c before =
    nested c.qmgr c.target none (each_listener c.listener) (acquired_listener c.listener) before
      (λ trace. open_after-listener trace c.listener)
release-acquired queue2stan c before =
    nested c.qmgr c.target none (each_listener c.listener) (acquired_listener c.listener) before
      (λ trace. open_after-listener trace c.listener)
release-acquired topic2nats c before =
    nested c.qmgr c.target c.mq_sub (each_listener c.listener) (acquired_listener c.listener) before
      (λ trace. open_after-listener trace c.listener)
release-acquired topic2stan c before =
    nested c.qmgr c.target c.mq_sub (each_listener c.listener) (acquired_listener c.listener) before
      (λ trace. open_after-listener trace c.listener)
release-acquired nats2queue c before = kept_or_given_back nats2queue c before false
release-acquired nats2topic c before = kept_or_given_back nats2topic c before false
release-acquired stan2queue c before =
    kept_or_given_back stan2queue c before (is_set c.config.durable_name)
release-acquired stan2topic c before =
    kept_or_given_back stan2topic c before (is_set c.config.durable_name)

some_of_has : (o : Option ℕ) → has o ≡ true → (q : ℕ) × (o ≡ some q)
some_of_has none h = cc
some_of_has (some q) h = (q, refl)

pub start_then_shutdown :
    (k : Kind) (s s' : Services) (r : Run)
    → (start k s r).0 ≡ ok tt
    → let c = (start k s r).1.conn in
      let r' = (shutdown k s' (start k s r).1).1 in
      (r'.conn.qmgr ≡ none)
      × (r'.conn.target ≡ none)
      × (keeps_sub k c ≡ false → Detached k r'.conn)
      × ((q : ℕ) × (c.qmgr ≡ some q) × (rest : List Action) × (r'.trace ≡ disconnected q ∷ rest))
      × (open_after r'.trace ≡ open_after (kept k c ++ r.trace))
start_then_shutdown k s s' r e =
    let r1 = (start k s r).1 in
    let (held, opened', receiving, counted_one) = start-ok k s r e in
    let (q, p) = some_of_has r1.conn.qmgr held in
    let (t, no_qmgr, no_target, gone, counted) =
      shutdown_releases k s' r1 (ground (arith, opened')) in
    let rest = release_objects k r1.conn r1.trace in
    let whole = t ∙ ap (release k r1.conn) (start-acquired k s r e) in
    (
      no_qmgr,
      no_target,
      gone,
      (q, p, rest, t ∙ ap (λ o. each o disconnected ++ rest) p),
      ap open_after whole ∙ release-acquired k r1.conn r.trace,
    )
