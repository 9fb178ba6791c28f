-- ===== src/Connector/Ledger.antt =====
-- Which units of work the polling goroutine of nats-mq/core/connector.go begins and how it ends them.
use native.Mathlib.Nat.{mod-eq_of_lt}
use nats_mq.Prelude.{
  ℕ, suc, ◌+◌, ◌%◌, ◌<◌, ◌&&◌, ◌≡◌, sym, ◌∙◌, String, Bool, List, [], ◌∷◌, ◌++◌, Option, none, some,
  inl, inr, Option-cases, arith, ◌==◌, if◌then◌else◌,
}
use nats_mq.Prelude.Int.{pos, eqb_ℤ}
use nats_mq.Error.{Error, MqReturn, mq_callback, Outcome, done}
use nats_mq.Float.{FloatOps}
use nats_mq.Conf.{ConnectorConfig}
use nats_mq.Stats.{ConnectorStats, add_message_in, add_message_out, add_request_time, int64_mod}
use nats_mq.Convert.Reply.{ReplyToInfo}
use nats_mq.Convert.Messages.{Libraries}
use nats_mq.Connector.Listen.{
  Effect, publish, publish_request, publish_stan, commit, back, connector_error, failure, Handled,
  CallbackCodes, Publisher, publication, FromMq, mq_callback_function,
}
use nats_mq.Connector.Delivery.{is_message, converted, is_done, succeeded}
use nats_mq.Connector.Polling.{Round, Polled, polling_goroutine}
use nats_mq.Connector.Polled.{AllProper, calls, ends, polled, deliver, polling_goroutine-deliver}

-- What a list of effects comes to: a unit of work, with the publications that were tried in it, that
-- was ended by a call of Cmit or of Back or not at all, or an error that was reported to the bridge.
pub data Work : Type 0 where
  cmit_called back_called unfinished : List Effect → Work
  reported : Error → Work

-- The units of work and the reported errors of a list of effects, in their order. The argument before
-- is what was published since the last unit of work ended.
abbrev pub ledger : List Effect → List Effect → List Work
ledger [] [] = []
ledger (e ∷ sent) [] = unfinished (e ∷ sent) ∷ []
ledger sent (publish s b ∷ es) = ledger (sent ++ publish s b ∷ []) es
ledger sent (publish_request s r b ∷ es) = ledger (sent ++ publish_request s r b ∷ []) es
ledger sent (publish_stan c b ∷ es) = ledger (sent ++ publish_stan c b ∷ []) es
ledger sent (commit ∷ es) = cmit_called sent ∷ ledger [] es
ledger sent (back ∷ es) = back_called sent ∷ ledger [] es
ledger sent (connector_error x ∷ es) = reported x ∷ ledger sent es
ledger sent (e ∷ es) = ledger sent es

-- How the unit of work of a message should end, given the answers of the publication and of Cmit: Cmit
-- is called where the message was converted and its publication returned no error, and an error of
-- Cmit is reported.
abbrev pub due : Publisher → Option Error → Option Error → Outcome (List ℕ × String) → List Work
due to none none (done (msg, reply_to)) = cmit_called (publication to msg reply_to ∷ []) ∷ []
due to none (some e) (done (msg, reply_to)) =
    cmit_called (publication to msg reply_to ∷ []) ∷ reported e ∷ []
due to (some e) answer (done (msg, reply_to)) = back_called (publication to msg reply_to ∷ []) ∷ []
due to published answer failed = back_called [] ∷ []

-- The error of a call that failed is reported, unless it says that no message is available.
abbrev pub due_error : CallbackCodes → Option MqReturn → List Work
due_error codes none = []
due_error codes (some r) =
    if eqb_ℤ r.mqrc codes.mqrc_no_msg_available then [] else reported (mq_callback r) ∷ []

module _ (lib : Libraries) (info : ReplyToInfo) (codes : CallbackCodes) (to : Publisher)
    (exclude : Bool) where
  -- What a call should come to.
  abbrev pub call_due : FromMq → List Work
  call_due m =
      if is_message codes m
      then due to m.publish_error m.commit_error (converted lib info exclude m)
      else due_error codes (failure codes m.mq_err)

  abbrev pub all_due : List FromMq → List Work
  all_due [] = []
  all_due (m ∷ ms) = call_due m ++ all_due ms

  -- The message was converted, published and committed without an error.
  abbrev pub goes_through : FromMq → Bool
  goes_through m =
      is_message codes m
      && is_done (converted lib info exclude m)
      && succeeded m.publish_error
      && succeeded m.commit_error

  abbrev pub gone_through : List FromMq → ℕ
  gone_through [] = 0
  gone_through (m ∷ ms) = let rest = gone_through ms in if goes_through m then suc rest else rest

  module _ (f : FloatOps) where
    callback-ledger :
        (stats : ConnectorStats) (m : FromMq) (h : Handled) (es : List Effect)
        → mq_callback_function lib f info codes to exclude stats m ≡ some h
        → ledger [] (h.effects ++ es) ≡ call_due m ++ ledger [] es
    unfolding mq_callback_function publication
    callback-ledger stats m h es e = ground arith

    pub deliver-ledger :
        (ms : List FromMq) (stats : ConnectorStats) (h : Handled)
        → deliver lib f info codes to exclude ms stats ≡ some h
        → ledger [] h.effects ≡ all_due ms
    unfolding deliver
    deliver-ledger [] stats h e = ground arith
    deliver-ledger (m ∷ ms) stats h e =
        elim (Option-cases (mq_callback_function lib f info codes to exclude stats m)) [
          | inl p ↦ ground arith
          | inr (k, p) ↦ elim (Option-cases (deliver lib f info codes to exclude ms k.stats)) [
            | inl q ↦ ground arith
            | inr (j, q) ↦
                ground (arith, callback-ledger stats m k j.effects p, deliver-ledger ms k.stats j q)
          ]
        ]

    callback_counts_out :
        (stats : ConnectorStats) (m : FromMq) (h : Handled)
        → mq_callback_function lib f info codes to exclude stats m ≡ some h
        → h.stats.messages_out
          ≡ (if goes_through m then (stats.messages_out + 1) % int64_mod else stats.messages_out)
    unfolding mq_callback_function publication add_message_in add_message_out add_request_time
    callback_counts_out stats m h e = ground arith

    deliver_counts_out :
        (ms : List FromMq) (stats : ConnectorStats) (h : Handled)
        → stats.messages_out < int64_mod
        → deliver lib f info codes to exclude ms stats ≡ some h
        → h.stats.messages_out ≡ (stats.messages_out + gone_through ms) % int64_mod
    unfolding deliver
    deliver_counts_out [] stats h low e = ground (arith, mod-eq_of_lt low)
    deliver_counts_out (m ∷ ms) stats h low e =
        elim (Option-cases (mq_callback_function lib f info codes to exclude stats m)) [
          | inl p ↦ ground arith
          | inr (k, p) ↦
              let one = callback_counts_out stats m k p in
              let low' : k.stats.messages_out < int64_mod = ground (arith, one, low) in
              elim (Option-cases (deliver lib f info codes to exclude ms k.stats)) [
                | inl q ↦ ground arith
                | inr (j, q) ↦ ground (arith, one, deliver_counts_out ms k.stats j low' q)
              ]
        ]

module _ (lib : Libraries) (f : FloatOps) (info : ReplyToInfo) (codes : CallbackCodes)
    (to : Publisher) where
  -- While the connector holds its queue manager, its buffer size is 0 or more, Get respects the buffer,
  -- the count of sent messages is below 2^64 and the polling goroutine does not panic: its units of work
  -- are those of the messages that came in up to the round in which `done` is closed, in their order and
  -- each exactly once. A message that could be converted and published without an error was published as
  -- converted and ended by a call of Cmit, every other by a call of Back. An error of Cmit was reported
  -- to the bridge after the call, and so was, in its place, the error of each call that failed for
  -- another reason than that there is no message; nothing else was reported. The count of sent messages
  -- has grown, modulo 2^64, by the number of messages that were converted, published and committed
  -- without an error.
  pub polling_goroutine-ledger :
      (config : ConnectorConfig) (n : ℕ) (rounds : List Round) (stats : ConnectorStats) (p : Polled)
      → config.incoming_buffer_size ≡ pos n
      → AllProper codes (if n == 0 then 8192 else n) rounds
      → stats.messages_out < int64_mod
      → polling_goroutine lib f info codes to config rounds stats ≡ some p
      → let ms = calls rounds in
        (ledger [] p.effects ≡ all_due lib info codes to config.exclude_headers ms)
        × (p.stats.messages_out
            ≡ (stats.messages_out + gone_through lib info codes to config.exclude_headers ms)
              % int64_mod)
  polling_goroutine-ledger config n rounds stats p size proper low e =
      let hide = config.exclude_headers in
      let d = deliver lib f info codes to hide (calls rounds) stats in
      let e' : polled (ends rounds) d ≡ some p =
        sym (polling_goroutine-deliver lib f info codes to config n rounds stats size proper) ∙ e in
      elim (Option-cases d) [
        | inl q ↦ ground arith
        | inr (h, q) ↦
            let done_work = deliver-ledger lib info codes to hide f (calls rounds) stats h q in
            let count = deliver_counts_out lib info codes to hide f (calls rounds) stats h low q in
            (ground (arith, done_work), ground (arith, count))
      ]
