-- ===== src/Histogram/Bounds.antt =====
-- How many bins the histogram of nats-mq/core/histogram.go keeps, and which bins it merges.
use nats_mq.Prelude.{
  ℕ, zero, suc, ◌+◌, ◌≤◌, ◌<◌, ◌%◌, ◌^◌, ◌≡◌, refl, ◌⊎◌, inl, inr, Option-cases, List, [], ◌∷◌,
  some, length, arith, if◌then◌else◌,
}
use nats_mq.Float.{FloatOps}
use nats_mq.Histogram.{
  Bin, Histogram, add_to, min_delta_index, closest, merge_at, trim_loop, trim, add,
}

module _ (f : FloatOps) where
  pub length-merge_at :
      (i : ℕ) (bs cs : List Bin) → merge_at f i bs ≡ some cs → length bs ≡ suc (length cs)
  unfolding merge_at
  length-merge_at zero bs cs e = ground arith
  length-merge_at (suc i) [] cs e = ground arith
  length-merge_at (suc zero) (a ∷ []) cs e = ground arith
  length-merge_at (suc zero) (a ∷ b ∷ bs) cs e = ground arith
  length-merge_at (suc (suc i)) (a ∷ bs) cs e = elim (Option-cases (merge_at f (suc i) bs)) [
    | inl e' ↦ ground arith
    | inr (ds, e') ↦ ground (arith, length-merge_at (suc i) bs ds e')
  ]

  length-trim_loop :
      (fuel max : ℕ) (bs cs : List Bin)
      → length bs ≤ max + fuel
      → trim_loop f fuel max bs ≡ some cs
      → length cs ≤ max
  unfolding trim_loop
  length-trim_loop zero max bs cs h e = ground arith
  length-trim_loop (suc fuel) max bs cs h e =
      let i = closest f bs in
      elim (Option-cases (merge_at f i bs)) [
        | inl e' ↦ ground arith
        | inr (ds, e') ↦ ground (arith, length-merge_at i bs ds e', length-trim_loop fuel max ds cs)
      ]

  -- After Add the histogram has at most its maximum of bins, and counts one value more, if Add does
  -- not panic.
  pub length-add :
      (h : Histogram) (n : ℕ) {h' : Histogram}
      → add f h n ≡ some h'
      → (length h'.bins ≤ h.max_bins)
        × (h'.max_bins ≡ h.max_bins)
        × (h'.total ≡ (h.total + 1) % 2 ^ 64)
  unfolding add
  length-add h n {h'} e =
      let bs = add_to f n h.bins in
      elim (Option-cases (trim_loop f (length bs) h.max_bins bs)) [
        | inl e' ↦ unfold trim in ground arith
        | inr (cs, e') ↦
            unfold trim in ground (arith, length-trim_loop (length bs) h.max_bins bs cs)
      ]

module _ (f : FloatOps) where
  -- An index that the search returns lies in the part that it went through, or is the one it had.
  pub min_delta_index_range :
      (i prev d index : ℕ) (bs : List Bin)
      → let j = min_delta_index f i prev d index bs in (j ≡ index) ⊎ ((i ≤ j) × (j < i + length bs))
  unfolding min_delta_index
  min_delta_index_range i prev d index [] = inl refl
  min_delta_index_range i prev d index (b ∷ bs) =
      let closer = f.lt (f.sub b.value prev) d in
      ground (
        arith,
        min_delta_index_range (i + 1) b.value (if closer then f.sub b.value prev else d)
            (if closer then i else index) bs,
      )
