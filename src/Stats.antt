-- ===== src/Stats.antt =====
-- nats-mq/core/stats.go: the statistics of a connector.
use nats_mq.Prelude.{ℕ, ◌+◌, ◌-◌, ◌%◌, ◌^◌, String, Bool, true, false, Option, none, some}
use nats_mq.Float.{FloatOps}
use nats_mq.Histogram.{Histogram, new_histogram, add, quantile}

-- int64 counters are held as 64-bit patterns, which are their values while they are below 2 ^ 63.
abbrev pub int64_mod : ℕ
int64_mod = 2 ^ 64

pub record ConnectorStats : Type 0 where
  pub name : String
  pub id : String
  pub connected : Bool
  pub connects : ℕ
  pub disconnects : ℕ
  pub bytes_in : ℕ
  pub bytes_out : ℕ
  pub messages_in : ℕ
  pub messages_out : ℕ
  pub request_count : ℕ
  pub moving_average : ℕ
  pub quintile50 : ℕ
  pub quintile75 : ℕ
  pub quintile90 : ℕ
  pub quintile95 : ℕ
  pub histogram : Histogram

unfoldable pub add_message_in : ℕ → ConnectorStats → ConnectorStats
add_message_in bytes s = record s {
  messages_in = (s.messages_in + 1) % int64_mod;
  bytes_in = (s.bytes_in + bytes) % int64_mod;
}

unfoldable pub add_message_out : ℕ → ConnectorStats → ConnectorStats
add_message_out bytes s = record s {
  messages_out = (s.messages_out + 1) % int64_mod;
  bytes_out = (s.bytes_out + bytes) % int64_mod;
}

unfoldable pub add_disconnect : ConnectorStats → ConnectorStats
add_disconnect s = record s { disconnects = (s.disconnects + 1) % int64_mod; connected = false }

unfoldable pub add_connect : ConnectorStats → ConnectorStats
add_connect s = record s { connects = (s.connects + 1) % int64_mod; connected = true }

module _ (f : FloatOps) where
  unfoldable pub new_connector_stats : ConnectorStats
  unfolding new_histogram
  new_connector_stats = record {
    name = "";
    id = "";
    connected = false;
    connects = 0;
    disconnects = 0;
    bytes_in = 0;
    bytes_out = 0;
    messages_in = 0;
    messages_out = 0;
    request_count = 0;
    moving_average = f.zero_f;
    quintile50 = f.zero_f;
    quintile75 = f.zero_f;
    quintile90 = f.zero_f;
    quintile95 = f.zero_f;
    histogram = new_histogram 60;
  }

  -- `nanoseconds` is the request time; `none` is a panic in the histogram.
  unfoldable pub add_request_time : ℕ → ConnectorStats → Option ConnectorStats
  add_request_time nanoseconds s =
      let reqns = f.of_int nanoseconds in
      let count = (s.request_count + 1) % int64_mod in
      let before = f.of_int ((count + int64_mod - 1) % int64_mod) in
      let average = f.div (f.add (f.mul before s.moving_average) reqns) (f.of_int count) in
      elim (add f s.histogram reqns) [
        | none ↦ none
        | some h ↦
            some (record s { request_count = count; moving_average = average; histogram = h })
      ]

  -- The four levels 0.5, 0.75, 0.9 and 0.95 are float constants of the source.
  unfoldable pub update_quintiles : ℕ → ℕ → ℕ → ℕ → ConnectorStats → ConnectorStats
  update_quintiles q50 q75 q90 q95 s = record s {
    quintile50 = quantile f s.histogram q50;
    quintile75 = quantile f s.histogram q75;
    quintile90 = quantile f s.histogram q90;
    quintile95 = quantile f s.histogram q95;
  }
