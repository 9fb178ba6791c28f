-- ===== src/Connector/Locked.antt =====
-- The MQ callback of nats-mq/core/connector.go once it has the connector's lock: the connector may have
-- been shut down while the callback waited for it, and then holds no queue manager.
use nats_mq.Prelude.{
  ℕ, ◌≡◌, String, true, false, not, ◌&&◌, List, [], ◌∷◌, Option, none, some, length, take-length,
  arith, if◌then◌else◌,
}
use native.Mathlib.Nat.{le_refl}
use nats_mq.Error.{Error, Outcome, done, fails, panics}
use nats_mq.Float.{FloatOps}
use nats_mq.Stats.{ConnectorStats, add_message_in}
use nats_mq.Convert.Reply.{ReplyToInfo, reply_to_nats}
use nats_mq.Convert.Messages.{Libraries, mq_to_nats_message}
use nats_mq.Connector.Services.{Connector, Services, Run}
use nats_mq.Connector.Create.{Kind, shutdown}
use nats_mq.Connector.Lifecycle.{has}
use nats_mq.Connector.Listen.{
  Effect, connector_error, Handled, CallbackCodes, Publisher, publication, FromMq, failure, report,
  counted, mq_callback_function,
}
use nats_mq.Connector.Delivery.{is_message}
use nats_mq.Connector.Release.{from_topic, shutdown_releases}

-- What Cmit and Back of the MQ library answer when their queue manager is a nil pointer; the outer
-- `none` is a panic.
pub record NilCalls : Type 0 where
  pub cmit : Option (Option Error)
  pub back : Option (Option Error)

-- What a call did, and how it ended.
pub record Called : Type 0 where
  pub effects : List Effect
  pub outcome : Option ConnectorStats

abbrev pub returned : Handled → Called
returned h = record { effects = h.effects; outcome = some h.stats }

abbrev pub of_handled : Option Handled → Called
of_handled none = record { effects = []; outcome = none }
of_handled (some h) = returned h

module _ (lib : Libraries) (f : FloatOps) (info : ReplyToInfo) (nils : NilCalls)
    (codes : CallbackCodes) (to : Publisher) where
  -- mq.qMgr.Back(), whose error is not looked at.
  abbrev pub back_on_nil : ConnectorStats → List Effect → Option (Option Error) → Called
  back_on_nil stats effects none = record { effects = effects; outcome = none }
  back_on_nil stats effects (some answer) = record { effects = effects; outcome = some stats }

  -- if err := mq.qMgr.Cmit(); err != nil { ... }, and what follows it.
  abbrev pub cmit_on_nil : ConnectorStats → Effect → List ℕ → ℕ → Option (Option Error) → Called
  cmit_on_nil stats sent msg elapsed none = record { effects = sent ∷ []; outcome = none }
  cmit_on_nil stats sent msg elapsed (some (some e)) =
      returned (record { stats = stats; effects = sent ∷ connector_error e ∷ [] })
  cmit_on_nil stats sent msg elapsed (some none) =
      of_handled (counted lib f info stats (length msg) elapsed (sent ∷ []))

  abbrev pub publish_on_nil : ConnectorStats → Effect → List ℕ → FromMq → Option Error → Called
  publish_on_nil stats sent msg m (some e) = back_on_nil stats (sent ∷ []) nils.back
  publish_on_nil stats sent msg m none = cmit_on_nil stats sent msg m.elapsed nils.cmit

  abbrev pub converted_on_nil : ConnectorStats → FromMq → Outcome (List ℕ × String) → Called
  converted_on_nil stats m panics = record { effects = []; outcome = none }
  converted_on_nil stats m (fails e) = back_on_nil stats [] nils.back
  converted_on_nil stats m (done (msg, reply_to)) =
      publish_on_nil stats (publication to msg reply_to) msg m m.publish_error

  -- The callback on a connector without a queue manager: qmgrFlag is nil, whatever ExcludeHeaders says.
  unfoldable pub callback_on_nil : ConnectorStats → FromMq → Called
  callback_on_nil stats m = elim (failure codes m.mq_err) [
    | some r ↦ returned (report codes stats r)
    | none ↦
        if m.event_call
        then record { effects = []; outcome = some stats }
        else converted_on_nil (add_message_in (length m.buffer) stats) m
            (mq_to_nats_message lib info m.md m.handle m.buffer (length m.buffer) false)
  ]

  -- The callback, by what the connector holds when its lock is taken.
  unfoldable pub mq_callback : Connector → FromMq → Called
  unfolding callback_on_nil
  mq_callback c m = elim (c.qmgr) [
    | some q ↦
        of_handled (mq_callback_function lib f info codes to c.config.exclude_headers c.stats m)
    | none ↦ callback_on_nil c.stats m
  ]

  callback_on_nil_lem :
      (stats : ConnectorStats) (m : FromMq)
      → nils.cmit ≡ none
      → nils.back ≡ none
      → is_message codes m ≡ true
      → callback_on_nil stats m ≡ record {
        effects = publication to m.buffer (reply_to_nats info m.md).0 ∷ [];
        outcome = none;
      }
  unfolding callback_on_nil mq_to_nats_message publication
  callback_on_nil_lem stats m c b message =
      ground (arith, take-length (length m.buffer) m.buffer (le_refl (length m.buffer)))

  -- When a message waits for the lock of a connector while Shutdown runs to its end (with
  -- the topic held, where there is one), the callback then publishes its plain body, also where the
  -- configuration includes headers, and panics, if Cmit and Back panic on a nil queue manager.
  pub mq_callback-shutdown :
      (k : Kind) (s : Services) (r : Run) (m : FromMq)
      → nils.cmit ≡ none
      → nils.back ≡ none
      → from_topic k && not (has r.conn.target) ≡ false
      → is_message codes m ≡ true
      → mq_callback (shutdown k s r).1.conn m ≡ record {
        effects = publication to m.buffer (reply_to_nats info m.md).0 ∷ [];
        outcome = none;
      }
  unfolding mq_callback
  mq_callback-shutdown k s r m c b topic message =
      let gone = (shutdown_releases k s r topic).1 in
      rw (mq_callback, gone) (callback_on_nil_lem (shutdown k s r).1.conn.stats m c b message)
