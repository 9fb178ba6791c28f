-- ===== src/Connector/Delivery.antt =====
-- What the message handlers guarantee: when a message counts as delivered, and what happens otherwise.
use nats_mq.Prelude.{
  ℕ, suc, ◌+◌, ◌%◌, ◌≡◌, String, Bool, true, false, not, ◌&&◌, List, [], ◌∷◌, Option, none, some,
  length, arith, if◌then◌else◌,
}
use nats_mq.Error.{Error, Outcome, done}
use nats_mq.Float.{FloatOps}
use nats_mq.Stats.{ConnectorStats, add_message_in, add_message_out, add_request_time, int64_mod}
use nats_mq.Convert.Properties.{HandleCalls}
use nats_mq.Convert.Reply.{ReplyToInfo}
use nats_mq.Convert.Messages.{Libraries, mq_to_nats_message, nats_to_mq_message}
use nats_mq.Connector.Listen.{
  Effect, commit, back, ack, Handled, CallbackCodes, Publisher, publication, FromMq, failure,
  mq_callback_function, nats_callback, data_length, stan_callback,
}

-- How often a list of effects ends a unit of work.
abbrev pub settled : List Effect → ℕ
settled [] = 0
settled (commit ∷ es) = suc (settled es)
settled (back ∷ es) = suc (settled es)
settled (e ∷ es) = settled es

abbrev pub has_commit : List Effect → Bool
has_commit [] = false
has_commit (commit ∷ es) = true
has_commit (e ∷ es) = has_commit es

abbrev pub has_ack : List Effect → Bool
has_ack [] = false
has_ack (ack ∷ es) = true
has_ack (e ∷ es) = has_ack es

abbrev pub succeeded {ℓ} : {A : Type ℓ} → Option A → Bool
succeeded none = true
succeeded (some e) = false

abbrev pub is_done {ℓ} : {A : Type ℓ} → Outcome A → Bool
is_done (done a) = true
is_done _ = false

-- The conversion that the MQ callback makes of a message.
abbrev pub converted : Libraries → ReplyToInfo → Bool → FromMq → Outcome (List ℕ × String)
converted lib info exclude m =
    mq_to_nats_message lib info m.md m.handle m.buffer (length m.buffer) (not exclude)

-- A call of the MQ callback that brings a message: it is no error and no event.
abbrev pub is_message : CallbackCodes → FromMq → Bool
is_message codes m = succeeded (failure codes m.mq_err) && not m.event_call

module _ (lib : Libraries) (f : FloatOps) (info : ReplyToInfo) where
  module _ (codes : CallbackCodes) (to : Publisher) (exclude : Bool) (stats : ConnectorStats)
      (m : FromMq) where
    -- A call of the MQ callback that does not panic ends the unit of work exactly once if it brings a
    -- message, by a commit if the conversion and the publication succeeded, else by a back-out; an
    -- error and an event end no unit of work.
    pub mq_callback_settles :
        (h : Handled)
        → mq_callback_function lib f info codes to exclude stats m ≡ some h
        → (settled h.effects ≡ (if is_message codes m then 1 else 0))
          × (has_commit h.effects ≡ (
              is_message codes m
              && is_done (converted lib info exclude m)
              && succeeded m.publish_error))
    unfolding mq_callback_function publication
    mq_callback_settles h e = ground arith

    -- A call of the MQ callback that does not panic counts its message as received (AddMessageIn) with
    -- the length of its body, exactly if it brings a message, and as sent (AddMessageOut) exactly if
    -- moreover the conversion, the publication and the commit succeeded.
    pub mq_callback_counts :
        (h : Handled)
        → mq_callback_function lib f info codes to exclude stats m ≡ some h
        → (h.stats.messages_in ≡ (
            if is_message codes m then (stats.messages_in + 1) % int64_mod else stats.messages_in))
          × (h.stats.bytes_in ≡ (
              if is_message codes m
              then (stats.bytes_in + length m.buffer) % int64_mod
              else stats.bytes_in))
          × (h.stats.messages_out ≡ (
              if is_message codes m
                && is_done (converted lib info exclude m)
                && succeeded m.publish_error
                && succeeded m.commit_error
              then (stats.messages_out + 1) % int64_mod
              else stats.messages_out))
    unfolding mq_callback_function publication add_message_in add_message_out add_request_time
    mq_callback_counts h e = ground arith

  -- A streaming message that is handled without a panic is acknowledged exactly when it was converted
  -- and put to MQ, and it counts as sent exactly then; otherwise it stays unacknowledged.
  pub stan_callback_acks :
      (calls : HandleCalls) (exclude : Bool) (stats : ConnectorStats) (body : Option (List ℕ))
      (elapsed : ℕ) (put_error : Option Error) (h : Handled)
      → stan_callback lib f info calls exclude stats body elapsed put_error ≡ some h
      → let delivered =
          is_done (nats_to_mq_message lib info calls body "" (not exclude))
          && succeeded put_error in
        (has_ack h.effects ≡ delivered)
        × (h.stats.messages_out
            ≡ (if delivered then (stats.messages_out + 1) % int64_mod else stats.messages_out))
  unfolding stan_callback add_message_in add_message_out add_request_time
  stan_callback_acks calls exclude stats body elapsed put_error h e = ground arith

  -- A NATS message that is handled without a panic counts as received with the length of its body, and
  -- as sent exactly when it was converted and put to MQ; handling it has one effect if it was converted
  -- and else none, and no commit, back-out or acknowledgement.
  pub nats_callback_counts :
      (calls : HandleCalls) (exclude : Bool) (stats : ConnectorStats) (body : Option (List ℕ))
      (reply : String) (elapsed : ℕ) (put_error : Option Error) (h : Handled)
      → nats_callback lib f info calls exclude stats body reply elapsed put_error ≡ some h
      → let converts = is_done (nats_to_mq_message lib info calls body reply (not exclude)) in
        (h.stats.messages_in ≡ (stats.messages_in + 1) % int64_mod)
        × (h.stats.bytes_in ≡ (stats.bytes_in + data_length body) % int64_mod)
        × (h.stats.messages_out ≡ (
            if converts && succeeded put_error
            then (stats.messages_out + 1) % int64_mod
            else stats.messages_out))
        × (length h.effects ≡ (if converts then 1 else 0))
        × (settled h.effects ≡ 0)
        × (has_ack h.effects ≡ false)
  unfolding nats_callback add_message_in add_message_out add_request_time
  nats_callback_counts calls exclude stats body reply elapsed put_error h e = ground arith
