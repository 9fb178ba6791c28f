-- ===== src/Connector/Returning.antt =====
-- When the MQ callback of nats-mq/core/connector.go returns.
use nats_mq.Prelude.{ℕ, ◌+◌, ◌≤◌, ◌<◌, ◌≡◌, List, [], ◌∷◌, Option, some}
use nats_mq.Float.{FloatOps}
use nats_mq.Histogram.Counts.{Exact}
use nats_mq.Histogram.Steady.{Bounded, IsSteady}
use nats_mq.Stats.{ConnectorStats}
use nats_mq.Convert.Mqmd.{Mqmd}
use nats_mq.Convert.Reply.{ReplyToInfo}
use nats_mq.Convert.Messages.{Libraries}
use nats_mq.Connector.Listen.{Handled, FromMq}

-- Every message has a descriptor, and took a duration of 64 bits.
abbrev pub AllReady : List FromMq → Type 0
AllReady [] = Unit
AllReady (m ∷ ms) =
    ((md : Mqmd) × (m.md ≡ some md)) × (m.elapsed < 9223372036854775808) × AllReady ms

module _ (lib : Libraries) (f : FloatOps) (info : ReplyToInfo) (num : ℕ → ℕ) (V : ℕ → ℕ → Type 0)
    (exact : Exact f num) (bounded : Bounded f num V) where
  -- A handler returned, with a steady histogram that counts at most one value more.
  abbrev Returns : ConnectorStats → Option Handled → Type 0
  Returns stats o =
      (h : Handled) × (o ≡ some h)
      × IsSteady num V h.stats.histogram
      × (h.stats.histogram.total ≤ stats.histogram.total + 1)
