-- ===== src/Histogram/Tests.antt =====
-- Runs of the histogram, and its properties at concrete inputs.
use nats_mq.Prelude.{◌≤◌, ◌≡◌, ℕ, List, refl, [], ◌∷◌, none, some, length, arith}
use nats_mq.Histogram.{Histogram, new_histogram, add, quantile}
use nats_mq.Histogram.Steady.{IsSteady, as_floats, new_histogram_returns}
use nats_mq.Histogram.Counts.{counted_in, add_all, new_histogram-counted}
use nats_mq.Samples.{numbers, bin, full, AtMost, numbers-Exact, numbers-Bounded}

abbrev merged : Histogram
merged = record { bins = bin 11 4 ∷ bin 30 1 ∷ bin 50 1 ∷ []; max_bins = 3; total = 6 }

-- A fourth bin makes the two closest ones, of the values 10 and 12, into one.
add_merges : add numbers full 30 ≡ some merged
unfolding add
add_merges = refl

-- A histogram without room for a bin panics.
add_panics : add numbers (record { bins = []; max_bins = 0; total = 0 }) 30 ≡ none
unfolding add
add_panics = refl

quantile_of_full : quantile numbers full 1 ≡ 50
unfolding quantile
quantile_of_full = refl

abbrev four_values : List ℕ
four_values = 10 ∷ 12 ∷ 50 ∷ 30 ∷ []

abbrev after_four : Histogram
after_four = record { bins = bin 11 2 ∷ bin 30 1 ∷ bin 50 1 ∷ []; max_bins = 3; total = 4 }

four_added : add_all numbers four_values (new_histogram 3) ≡ some after_four
unfolding add_all new_histogram add
four_added = refl

new_histogram-counted_example :
    (counted_in (λ n. n) after_four.bins ≡ 4)
    × (after_four.total ≡ 4)
    × (length after_four.bins ≤ 3)
new_histogram-counted_example =
    new_histogram-counted numbers (λ n. n) numbers-Exact 3 four_values after_four (omega arith)
      four_added

new_histogram_returns_example :
    (h : Histogram) × (add_all numbers (as_floats numbers four_values) (new_histogram 3) ≡ some h)
    × IsSteady (λ n. n) AtMost h
    × (h.total ≡ 4)
new_histogram_returns_example =
    new_histogram_returns numbers (λ n. n) AtMost numbers-Exact numbers-Bounded 3 four_values
      (omega arith) (omega arith) (omega arith, (omega arith, (omega arith, (omega arith, tt))))
