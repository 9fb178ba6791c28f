-- ===== src/Histogram.antt =====
-- nats-mq/core/histogram.go: a streaming approximate histogram.
pub mod Bounds
pub mod Counts
pub mod Steady
mod Tests
use nats_mq.Prelude.{
  ℕ, zero, suc, ◌+◌, ◌%◌, ◌^◌, Bool, true, false, ◌||◌, List, [], ◌∷◌, Option, none, some, length,
  if◌then◌else◌, ltb,
}
use nats_mq.Float.{FloatOps}

pub record Bin : Type 0 where
  pub value : ℕ
  pub count : ℕ

-- `max_bins` is a Go int and not negative in the source, `total` a uint64.
pub record Histogram : Type 0 where
  pub bins : List Bin
  pub max_bins : ℕ
  pub total : ℕ

unfoldable pub new_histogram : ℕ → Histogram
new_histogram n = record { bins = []; max_bins = n; total = 0 }

module _ (f : FloatOps) where
  scale_bins : ℕ → List Bin → List Bin
  scale_bins s [] = []
  scale_bins s (b ∷ bs) = record b { value = f.mul b.value s } ∷ scale_bins s bs

  unfoldable pub scale : Histogram → ℕ → Histogram
  unfolding scale_bins
  scale h s = record h { bins = scale_bins s h.bins }

  abbrev pub single : ℕ → Bin
  single n = record { value = n; count = f.one_f }

  -- The loop of Add: the first bin of that value counts one more, or a new bin goes before the first
  -- bin of a larger value, or at the end.
  unfoldable pub add_to : ℕ → List Bin → List Bin
  add_to n [] = single n ∷ []
  add_to n (b ∷ bs) =
      if f.eq b.value n
      then record b { count = f.add b.count f.one_f } ∷ bs
      else if f.lt n b.value
      then single n ∷ b ∷ bs
      else b ∷ add_to n bs

  -- The search for the closest neighbours: `i` is the index of the head, `prev` the value before it.
  unfoldable pub min_delta_index : ℕ → ℕ → ℕ → ℕ → List Bin → ℕ
  min_delta_index i prev min_delta index [] = index
  min_delta_index i prev min_delta index (b ∷ bs) =
      let delta = f.sub b.value prev in
      let closer = f.lt delta min_delta in
      min_delta_index (i + 1) b.value (if closer then delta else min_delta)
        (if closer then i else index) bs

  -- The index found by the loop over all the bins; it stays 0 if no two are closer than 1e99.
  unfoldable pub closest : List Bin → ℕ
  unfolding min_delta_index
  closest [] = 0
  closest (b ∷ bs) = min_delta_index 1 b.value f.huge 0 bs

  unfoldable pub merge : Bin → Bin → Bin
  merge a b =
      let total_count = f.add a.count b.count in
      record {
        value = f.div (f.add (f.mul a.value a.count) (f.mul b.value b.count)) total_count;
        count = total_count;
      }

  -- The bins at the indices `i - 1` and `i` become one; `none` is an index out of range, which panics.
  unfoldable pub merge_at : ℕ → List Bin → Option (List Bin)
  unfolding merge
  merge_at zero bs = none
  merge_at (suc i) [] = none
  merge_at (suc zero) (a ∷ []) = none
  merge_at (suc zero) (a ∷ b ∷ bs) = some (merge a b ∷ bs)
  merge_at (suc (suc i)) (a ∷ bs) = elim (merge_at (suc i) bs) [
    | none ↦ none
    | some cs ↦ some (a ∷ cs)
  ]

  -- `for len(h.Bins) > h.MaxBins`: each round takes one bin away, so as many rounds as there are bins
  -- are enough.
  unfoldable pub trim_loop : ℕ → ℕ → List Bin → Option (List Bin)
  unfolding merge_at closest
  trim_loop zero max bs = some bs
  trim_loop (suc fuel) max bs = elim (ltb max (length bs)) [
    | false ↦ some bs
    | true ↦ elim (merge_at (closest bs) bs) [ none ↦ none | some cs ↦ trim_loop fuel max cs ]
  ]

  unfoldable pub trim : Histogram → Option Histogram
  unfolding trim_loop
  trim h = elim (trim_loop (length h.bins) h.max_bins h.bins) [
    | none ↦ none
    | some bs ↦ some (record h { bins = bs })
  ]

  -- Add with its deferred trim; `none` is a panic of trim.
  unfoldable pub add : Histogram → ℕ → Option Histogram
  unfolding trim add_to
  add h n = trim (record h { bins = add_to n h.bins; total = (h.total + 1) % 2 ^ 64 })

  -- `count <= 0`
  abbrev pub not_positive : ℕ → Bool
  not_positive c = f.lt c f.zero_f || f.eq c f.zero_f

  quantile_from : ℕ → List Bin → ℕ
  quantile_from count [] = f.minus_one
  quantile_from count (b ∷ bs) =
      let left = f.sub count b.count in if not_positive left then b.value else quantile_from left bs

  unfoldable pub quantile : Histogram → ℕ → ℕ
  unfolding quantile_from
  quantile h q = quantile_from (f.mul q (f.of_int h.total)) h.bins

  weighted_sum : ℕ → List Bin → ℕ
  weighted_sum sum [] = sum
  weighted_sum sum (b ∷ bs) = weighted_sum (f.add sum (f.mul b.value b.count)) bs

  unfoldable pub mean : Histogram → ℕ
  unfolding weighted_sum
  mean h =
      if ltb 0 h.total then f.div (weighted_sum f.zero_f h.bins) (f.of_int h.total) else f.zero_f

  unfoldable pub count_f : Histogram → ℕ
  count_f h = f.of_int h.total
