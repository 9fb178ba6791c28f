-- ===== src/Connector/Polling.antt =====
-- The polling goroutine that setUpPolling of connector.go starts: its buffer, its rounds and its end.
-- The connector holds its queue manager in every round; a Shutdown that comes first in the wait for
-- the lock is in Locked.
use nats_mq.Prelude.{
  ℕ, Bool, true, false, List, [], ◌∷◌, ◌++◌, Option, none, some, length, take, replicate, leb, ◌==◌,
  if◌then◌else◌,
}
use nats_mq.Prelude.Int.{ℤ, pos, negsuc, wrap, eqb_ℤ}
use nats_mq.Error.{Error, MqReturn}
use nats_mq.Float.{FloatOps}
use nats_mq.Conf.{ConnectorConfig}
use nats_mq.Stats.{ConnectorStats}
use nats_mq.Convert.Mqmd.{Mqmd}
use nats_mq.Convert.Properties.{MessageHandle}
use nats_mq.Convert.Reply.{ReplyToInfo}
use nats_mq.Convert.Messages.{Libraries}
use nats_mq.Connector.Listen.{
  Effect, Handled, CallbackCodes, Publisher, FromMq, mq_callback_function,
}

-- make([]byte, bufferSize), which panics for a negative size.
unfoldable pub make_buffer : ℤ → Option (List ℕ)
make_buffer (pos n) = some (replicate (if n == 0 then 8192 else n) 0)
make_buffer (negsuc n) = none

-- int32(mq.config.IncomingMessageWait), or 500 milliseconds.
unfoldable pub wait_timeout : ConnectorConfig → ℤ
wait_timeout c =
    let wait = wrap 2147483648 c.incoming_message_wait in
    if eqb_ℤ wait (pos 0) then pos 500 else wait

-- What target.Get answers in a round: the error, the descriptor and the handle, the bytes that it
-- writes to the start of the buffer, and the length that it returns; then how the publication, the
-- commit and the clock will answer.
pub record Got : Type 0 where
  pub get_error : Option MqReturn
  pub md : Option Mqmd
  pub handle : Option MessageHandle
  pub bytes : List ℕ
  pub len : ℕ
  pub publish_error : Option Error
  pub commit_error : Option Error
  pub elapsed : ℕ

-- A round, with whether the channel `done` is closed when the select looks at it.
pub record Round : Type 0 where
  pub got : Got
  pub done : Bool

-- What the goroutine has done: `ended` says that it left the loop and deleted the message handle.
pub record Polled : Type 0 where
  pub stats : ConnectorStats
  pub effects : List Effect
  pub ended : Bool

-- The buffer after bytes were written to its start.
unfoldable pub write : List ℕ → List ℕ → List ℕ
write [] buffer = buffer
write (x ∷ xs) [] = []
write (x ∷ xs) (b ∷ buffer) = x ∷ write xs buffer

-- buffer[0:len], which panics beyond the end.
abbrev pub slice : ℕ → List ℕ → Option (List ℕ)
slice len buffer = if leb len (length buffer) then some (take len buffer) else none

-- The arguments of the callback, with the body; there is no MQCBC, so this is no event call.
abbrev pub call : Got → List ℕ → FromMq
call g body = record {
  mq_err = g.get_error;
  event_call = false;
  md = g.md;
  handle = g.handle;
  buffer = body;
  publish_error = g.publish_error;
  commit_error = g.commit_error;
  elapsed = g.elapsed;
}

abbrev pub and_then : Handled → Option Polled → Option Polled
and_then h none = none
and_then h (some p) = some (record p { effects = h.effects ++ p.effects })

module _ (lib : Libraries) (f : FloatOps) (info : ReplyToInfo) where
  module _ (codes : CallbackCodes) (to : Publisher) (exclude_headers : Bool) where
    abbrev pub call_sliced : ConnectorStats → Got → Option (List ℕ) → Option Handled
    call_sliced stats g none = none
    call_sliced stats g (some body) =
        mq_callback_function lib f info codes to exclude_headers stats (call g body)

    -- if err != nil { ... } else { ... }
    abbrev pub on_answer : ConnectorStats → Got → Option (List ℕ) → Option MqReturn → Option Handled
    on_answer stats g body none = call_sliced stats g body
    on_answer stats g body (some r) =
        if eqb_ℤ r.mqrc codes.mqrc_no_msg_available
        then some (record { stats = stats; effects = [] })
        else call_sliced stats g body

    -- A round up to the select, with the buffer that Get has written to; `none` is a panic.
    unfoldable pub poll_once : ConnectorStats → List ℕ → Got → Option Handled
    poll_once stats buffer g = on_answer stats g (slice g.len buffer) g.get_error

    -- The select: the goroutine ends, or goes on with the next round.
    abbrev pub select : Bool → Option Handled → (Handled → Option Polled) → Option Polled
    select done none next = none
    select true (some h) next = some (record { stats = h.stats; effects = h.effects; ended = true })
    select false (some h) next = and_then h (next h)

    -- The loop over the rounds that happen. The buffer is the same in all rounds.
    unfoldable pub poll : List Round → List ℕ → ConnectorStats → Option Polled
    unfolding poll_once write
    poll [] buffer stats = some (record { stats = stats; effects = []; ended = false })
    poll (r ∷ rounds) buffer stats =
        let written = write r.got.bytes buffer in
        select r.done (poll_once stats written r.got) (λ h. poll rounds written h.stats)

  -- The goroutine of a connector with this configuration.
  unfoldable pub polling_goroutine :
      CallbackCodes → Publisher → ConnectorConfig → List Round → ConnectorStats → Option Polled
  unfolding poll make_buffer
  polling_goroutine codes to config rounds stats = elim (make_buffer config.incoming_buffer_size) [
    | none ↦ none
    | some buffer ↦ poll codes to config.exclude_headers rounds buffer stats
  ]
