-- ===== src/Connector/Release.antt =====
-- What Shutdown releases, and what it leaves open.
use nats_mq.Prelude.{
  ℕ, ◌≡◌, refl, Bool, true, false, not, ◌&&◌, List, [], ◌∷◌, ◌++◌, Option, none, some, arith,
  is_set, if◌then◌else◌, Option-cases, inl, inr,
}
use nats_mq.Error.{Error, ok, err}
use nats_mq.Stats.{add_disconnect}
use nats_mq.Connector.Services.{
  Listener, Connector, Services, Action, connected, stopped, unsubscribed, closed, disconnected,
  Run, fail_if,
}
use nats_mq.Connector.Steps.{
  connect_to_queue_manager, connect_to_mq, subscribe_to_topic, stop_listener, unsubscribe,
  unsubscribe_not_durable, close_target, close_sub, disconnect, count_disconnect,
}
use nats_mq.Connector.Kinds.{require_nats, require_stan}
use nats_mq.Connector.Create.{
  Kind, queue2nats, queue2stan, nats2queue, nats2topic, stan2queue, stan2topic, topic2nats,
  topic2stan, start, shutdown,
}
use nats_mq.Connector.Lifecycle.{has, listens}

abbrev pub from_topic : Kind → Bool
from_topic topic2nats = true
from_topic topic2stan = true
from_topic _ = false

-- The connectors that require NATS; the others require NATS streaming.
abbrev pub check_of : Kind → Bool
check_of queue2nats = true
check_of nats2queue = true
check_of nats2topic = true
check_of topic2nats = true
check_of _ = false

abbrev pub from_stan : Kind → Bool
from_stan stan2queue = true
from_stan stan2topic = true
from_stan _ = false

abbrev pub each : Option ℕ → (ℕ → Action) → List Action
each none f = []
each (some h) f = f h ∷ []

abbrev pub each_listener : Option Listener → List Action
each_listener none = []
each_listener (some l) = stopped l ∷ []

-- The steps of Shutdown in closed form.
stop_listener-eq :
    (r : Run)
    → stop_listener r ≡ (
      ok tt,
      record {
        conn = record r.conn { listener = none };
        trace = each_listener r.conn.listener ++ r.trace;
      },
    )
unfolding stop_listener
stop_listener-eq r = ground arith

unsubscribe-eq :
    (r : Run)
    → unsubscribe r ≡ (
      ok tt,
      record {
        conn = record r.conn { sub = none };
        trace = each r.conn.sub unsubscribed ++ r.trace;
      },
    )
unfolding unsubscribe
unsubscribe-eq r = ground arith

unsubscribe_not_durable-eq :
    (r : Run)
    → unsubscribe_not_durable r ≡ (
        let kept = is_set r.conn.config.durable_name in
        (
          ok tt,
          record {
            conn = record r.conn { sub = if kept then r.conn.sub else none };
            trace = (if kept then [] else each r.conn.sub unsubscribed) ++ r.trace;
          },
        ))
unfolding unsubscribe_not_durable unsubscribe
unsubscribe_not_durable-eq r = ground arith

abbrev close_error : Services → Option ℕ → Option Error
close_error s none = none
close_error s (some h) = s.close_object h

close_target-eq :
    (s : Services) (r : Run)
    → close_target s r ≡ (
      ok (close_error s r.conn.target),
      record {
        conn = record r.conn { target = none };
        trace = each r.conn.target closed ++ r.trace;
      },
    )
unfolding close_target
close_target-eq s r = ground arith

close_sub-eq :
    (held : Option ℕ) (r : Run)
    → close_sub held r ≡ (ok tt, record r { trace = each held closed ++ r.trace })
unfolding close_sub
close_sub-eq none r = refl
close_sub-eq (some h) r = refl

disconnect-eq :
    (r : Run)
    → disconnect r ≡ (
      ok tt,
      record {
        conn = record r.conn { qmgr = none };
        trace = each r.conn.qmgr disconnected ++ r.trace;
      },
    )
unfolding disconnect
disconnect-eq r = ground arith

fail_if-run : (e : Option Error) (r : Run) → (fail_if e r).1 ≡ r
fail_if-run none r = refl
fail_if-run (some x) r = refl

ruleset closing = (
  stop_listener-eq, unsubscribe-eq, unsubscribe_not_durable-eq, close_target-eq, close_sub-eq,
  disconnect-eq, fail_if-run,
)

-- Whether Shutdown keeps the subscription: a durable one of NATS streaming.
abbrev pub keeps_sub : Kind → Connector → Bool
keeps_sub k c = from_stan k && is_set c.config.durable_name

-- Giving back what a connector of the kind holds besides its queue manager: the trace with the latest
-- action first.
abbrev pub release_objects : Kind → Connector → List Action → List Action
release_objects k c before =
    each c.target closed
    ++ ((if from_topic k then each c.mq_sub closed else [])
        ++ ((if listens k
              then each_listener c.listener
              else if keeps_sub k c
              then []
              else each c.sub unsubscribed)
            ++ before))

-- And at the end the connection to the queue manager.
abbrev pub release : Kind → Connector → List Action → List Action
release k c before = each c.qmgr disconnected ++ release_objects k c before

-- The field by which the kind receives messages.
abbrev pub Detached : Kind → Connector → Type 0
Detached k c = (if listens k then has c.listener else has c.sub) ≡ false

pub shutdown_releases :
    (k : Kind) (s : Services) (r : Run)
    → from_topic k && not (has r.conn.target) ≡ false
    → let r' = (shutdown k s r).1 in
      (r'.trace ≡ release k r.conn r.trace)
      × (r'.conn.qmgr ≡ none)
      × (r'.conn.target ≡ none)
      × (keeps_sub k r.conn ≡ false → Detached k r'.conn)
      × (r'.conn.stats ≡ add_disconnect r.conn.stats)
unfolding shutdown count_disconnect
shutdown_releases queue2nats s r h = simp closing (refl, refl, refl, λ d. refl, refl)
shutdown_releases queue2stan s r h = simp closing (refl, refl, refl, λ d. refl, refl)
shutdown_releases nats2queue s r h = simp closing (refl, refl, refl, λ d. refl, refl)
shutdown_releases nats2topic s r h = simp closing (refl, refl, refl, λ d. refl, refl)
shutdown_releases stan2queue s r h = simp closing (refl, refl, refl, (λ d. rw d), refl)
shutdown_releases stan2topic s r h = simp closing (refl, refl, refl, (λ d. rw d), refl)
shutdown_releases topic2nats s r h = elim (Option-cases r.conn.target) [
  | inl e ↦ ground arith
  | inr (t, e) ↦ simp (closing, e) (refl, refl, refl, λ d. refl, refl)
]
shutdown_releases topic2stan s r h = elim (Option-cases r.conn.target) [
  | inl e ↦ ground arith
  | inr (t, e) ↦ simp (closing, e) (refl, refl, refl, λ d. refl, refl)
]

-- If a topic connector holds no topic, and its Start finds NATS or streaming available and connects to
-- the queue manager q but fails to subscribe to the topic, Start returns that error with q connected
-- as its only action, and a Shutdown after it takes no action at all and leaves q held.
pub failed_topic_start_leaks :
    (k : Kind) (s s' : Services) (r : Run) (q : ℕ) (x : Error)
    → from_topic k ≡ true
    → r.conn.target ≡ none
    → (if check_of k then s.check_nats else s.check_stan) ≡ true
    → connect_to_queue_manager s r.conn.config.mq ≡ ok q
    → s.sub_topic q r.conn.config.topic ≡ err x
    → let r' = (start k s r).1 in
      ((start k s r).0 ≡ err x)
      × (r'.trace ≡ connected q ∷ r.trace)
      × ((shutdown k s' r').1.trace ≡ r'.trace)
      × ((shutdown k s' r').1.conn.qmgr ≡ some q)
unfolding start shutdown connect_to_mq subscribe_to_topic require_nats require_stan count_disconnect
failed_topic_start_leaks topic2nats s s' r q x k t c e f = ground arith
failed_topic_start_leaks topic2stan s s' r q x k t c e f = ground arith
failed_topic_start_leaks _ s s' r q x k t c e f = cc
