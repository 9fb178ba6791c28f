-- ===== src/Connector/Polled.antt =====
-- What the polling goroutine of connector.go delivers, compared with the callback that it calls.
use nats_mq.Prelude.{
  ℕ, ◌==◌, suc, ◌≤◌, ◌≡◌, refl, ap, Bool, true, false, List, [], ◌∷◌, ◌++◌, Option, none, some,
  length, take, replicate, length-replicate, arith, if◌then◌else◌, leb,
}
use mathlib.Core.List.{append-nil}
use nats_mq.Prelude.Int.{pos, eqb_ℤ}
use nats_mq.Error.{MqReturn}
use nats_mq.Float.{FloatOps}
use nats_mq.Conf.{ConnectorConfig}
use nats_mq.Stats.{ConnectorStats}
use nats_mq.Convert.Reply.{ReplyToInfo}
use nats_mq.Convert.Messages.{Libraries}
use nats_mq.Connector.Listen.{
  Handled, CallbackCodes, Publisher, FromMq, report, mq_callback_function,
}
use nats_mq.Connector.Polling.{
  make_buffer, Got, Round, Polled, write, slice, call, and_then, on_answer, poll_once, select, poll,
  polling_goroutine,
}

length-write : (xs buffer : List ℕ) → length (write xs buffer) ≡ length buffer
unfolding write
length-write [] buffer = refl
length-write (x ∷ xs) [] = refl
length-write (x ∷ xs) (b ∷ buffer) = ap suc (length-write xs buffer)

take-write :
    (xs buffer : List ℕ) → length xs ≤ length buffer → take (length xs) (write xs buffer) ≡ xs
unfolding write
take-write [] buffer h = refl
take-write (x ∷ xs) [] h = absurd (omega arith)
take-write (x ∷ xs) (b ∷ buffer) h = ap (λ t. x ∷ t) (take-write xs buffer (omega arith))

slice-write :
    (xs buffer : List ℕ) → length xs ≤ length buffer → slice (length xs) (write xs buffer) ≡ some xs
slice-write xs buffer h =
    let enough : leb (length xs) (length (write xs buffer)) ≡ true =
      rw (length-write xs buffer) (ground arith) in
    rw (enough, take-write xs buffer h) refl

-- What Get answers with a buffer of n bytes: an error has a completion code other than OK and a
-- length within the buffer, and a message has its own length and fits in.
unfoldable pub IsProper : CallbackCodes → ℕ → Got → Option MqReturn → Type 0
IsProper codes n g none = (g.len ≡ length g.bytes) × (length g.bytes ≤ n)
IsProper codes n g (some r) = (eqb_ℤ r.mqcc codes.mqcc_ok ≡ false) × (g.len ≤ n)

unfoldable pub AllProper : CallbackCodes → ℕ → List Round → Type 0
unfolding IsProper
AllProper codes n [] = Unit
AllProper codes n (r ∷ rounds) = IsProper codes n r.got r.got.get_error × AllProper codes n rounds

-- The calls of the rounds up to the one in which `done` is closed, each with a buffer of its own that
-- holds the message.
abbrev pub calls : List Round → List FromMq
calls [] = []
calls (r ∷ rounds) =
    let rest = calls rounds in call r.got r.got.bytes ∷ (if r.done then [] else rest)

abbrev pub ends : List Round → Bool
ends [] = false
ends (r ∷ rounds) = let rest = ends rounds in if r.done then true else rest

abbrev then_handled : Handled → Option Handled → Option Handled
then_handled h none = none
then_handled h (some k) = some (record k { effects = h.effects ++ k.effects })

abbrev chain : Option Handled → (Handled → Option Handled) → Option Handled
chain none next = none
chain (some h) next = then_handled h (next h)

abbrev pub polled : Bool → Option Handled → Option Polled
polled b none = none
polled b (some h) = some (record { stats = h.stats; effects = h.effects; ended = b })

and_then_lem :
    (b : Bool) (h : Handled) (o : Option Handled)
    → and_then h (polled b o) ≡ polled b (then_handled h o)
and_then_lem b h none = refl
and_then_lem b h (some k) = refl

module _ (lib : Libraries) (f : FloatOps) (info : ReplyToInfo) (codes : CallbackCodes)
    (to : Publisher) where
  module _ (exclude : Bool) where
    -- The callback on one message after the other.
    unfoldable pub deliver : List FromMq → ConnectorStats → Option Handled
    deliver [] stats = some (record { stats = stats; effects = [] })
    deliver (m ∷ ms) stats =
        chain (mq_callback_function lib f info codes to exclude stats m) (λ h. deliver ms h.stats)

    callback_error_lem :
        (stats : ConnectorStats) (m : FromMq) (r : MqReturn)
        → m.mq_err ≡ some r
        → eqb_ℤ r.mqcc codes.mqcc_ok ≡ false
        → mq_callback_function lib f info codes to exclude stats m ≡ some (report codes stats r)
    unfolding mq_callback_function
    callback_error_lem stats m r e h = rw (mq_callback_function, e, h) refl

    on_answer_lem :
        (stats : ConnectorStats) (buffer : List ℕ) (g : Got) (e : Option MqReturn)
        → g.get_error ≡ e
        → IsProper codes (length buffer) g e
        → on_answer lib f info codes to exclude stats g (slice g.len (write g.bytes buffer)) e
          ≡ mq_callback_function lib f info codes to exclude stats (call g g.bytes)
    unfolding IsProper
    on_answer_lem stats buffer g none e h = rw (h.0, slice-write g.bytes buffer h.1) refl
    on_answer_lem stats buffer g (some r) e h =
        let enough : leb g.len (length (write g.bytes buffer)) ≡ true =
          rw (length-write g.bytes buffer) (ground (arith, h.1)) in
        rw
          (
            enough,
            callback_error_lem stats (call g (take g.len (write g.bytes buffer))) r e h.0,
            callback_error_lem stats (call g g.bytes) r e h.0,
          )
          (ground arith)

    poll_once_lem :
        (stats : ConnectorStats) (buffer : List ℕ) (g : Got)
        → IsProper codes (length buffer) g g.get_error
        → poll_once lib f info codes to exclude stats (write g.bytes buffer) g
          ≡ mq_callback_function lib f info codes to exclude stats (call g g.bytes)
    unfolding poll_once
    poll_once_lem stats buffer g h = on_answer_lem stats buffer g g.get_error refl h

    select_lem :
        (d b : Bool) (o : Option Handled) (next : Handled → Option Polled) (ms : List FromMq)
        → ((h : Handled) → next h ≡ polled b (deliver ms h.stats))
        → select lib f info codes to exclude d o next
          ≡ polled (if d then true else b) (chain o (λ h. deliver (if d then [] else ms) h.stats))
    unfolding deliver
    select_lem d b none next ms h = refl
    select_lem true b (some k) next ms h = rw (append-nil k.effects) refl
    select_lem false b (some k) next ms h = rw (h k) (and_then_lem b k (deliver ms k.stats))

    poll-deliver :
        (rounds : List Round) (buffer : List ℕ) (stats : ConnectorStats)
        → AllProper codes (length buffer) rounds
        → poll lib f info codes to exclude rounds buffer stats
          ≡ polled (ends rounds) (deliver (calls rounds) stats)
    unfolding poll AllProper deliver
    poll-deliver [] buffer stats h = refl
    poll-deliver (r ∷ rounds) buffer stats (h, hs) =
        let written : List ℕ = write r.got.bytes buffer in
        let later : (k : Handled) → _ =
          λ k. poll-deliver rounds written k.stats (rw (length-write r.got.bytes buffer) hs) in
        rw (poll_once_lem stats buffer r.got h)
          (select_lem r.done (ends rounds) _ _ (calls rounds) later)

  -- A connector that holds its queue manager, with a buffer size n of 0 or more, and rounds in which Get respects a buffer of n bytes,
  -- or of 8192 for n = 0 (a message fits in and has its own length; an error has a completion code other
  -- than OK and a length within the buffer): the polling goroutine panics exactly when the callback does,
  -- and else has the statistics and effects of the callback on the messages and errors of the rounds, one
  -- after the other and each in a buffer of its own, up to the first round in which `done` is closed; it
  -- has ended exactly if there is such a round.
  pub polling_goroutine-deliver :
      (config : ConnectorConfig) (n : ℕ) (rounds : List Round) (stats : ConnectorStats)
      → config.incoming_buffer_size ≡ pos n
      → AllProper codes (if n == 0 then 8192 else n) rounds
      → polling_goroutine lib f info codes to config rounds stats
        ≡ polled (ends rounds) (deliver config.exclude_headers (calls rounds) stats)
  unfolding polling_goroutine make_buffer
  polling_goroutine-deliver config n rounds stats e h =
      let zero_byte : ℕ = 0 in
      rw e (
        poll-deliver config.exclude_headers rounds
          (replicate (if n == 0 then 8192 else n) zero_byte) stats
          (rw (length-replicate (if n == 0 then 8192 else n) zero_byte) h))
