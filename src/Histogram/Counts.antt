-- ===== src/Histogram/Counts.antt =====
-- What the bins of the histogram of nats-mq/core/histogram.go count.
use nats_mq.Prelude.{
  ℕ, zero, suc, ◌+◌, ◌≤◌, ◌<◌, ◌≡◌, refl, inl, inr, Bool-cases, Option-cases, List, [], ◌∷◌, Option,
  none, some, length, arith,
}
use nats_mq.Float.{FloatOps}
use nats_mq.Histogram.Bounds.{length-add}
use nats_mq.Histogram.{
  Bin, Histogram, new_histogram, add_to, closest, merge, merge_at, trim_loop, trim, add,
}

-- The floats that count, as numbers: addition is exact while the sum is below 2 ^ 53.
pub record Exact (f : FloatOps) (num : ℕ → ℕ) : Type 0 where
  pub one : num f.one_f ≡ 1
  pub plus : (p q : ℕ) → num p + num q < 9007199254740992 → num (f.add p q) ≡ num p + num q

-- What the bins count together.
abbrev pub counted_in : (ℕ → ℕ) → List Bin → ℕ
counted_in num [] = 0
counted_in num (b ∷ bs) = num b.count + counted_in num bs

module _ (f : FloatOps) where
  -- Values added one after the other; `none` is a panic of one of the calls.
  unfoldable pub add_all : List ℕ → Histogram → Option Histogram
  add_all [] h = some h
  add_all (n ∷ ns) h = elim (add f h n) [ none ↦ none | some h' ↦ add_all ns h' ]

module _ (f : FloatOps) (num : ℕ → ℕ) (exact : Exact f num) where
  pub counted_in-add_to :
      (n : ℕ) (bs : List Bin)
      → counted_in num bs + 1 < 9007199254740992
      → counted_in num (add_to f n bs) ≡ counted_in num bs + 1
  unfolding add_to
  counted_in-add_to n [] h = omega (arith, exact.one)
  counted_in-add_to n (b ∷ bs) h = elim (Bool-cases (f.eq b.value n)) [
    | inl same ↦
        let more = exact.plus b.count f.one_f (omega (arith, exact.one)) in
        rw same (omega (arith, more, exact.one))
    | inr differ ↦ elim (Bool-cases (f.lt n b.value)) [
      | inl less ↦ rw (differ, less) (omega (arith, exact.one))
      | inr more ↦ rw (differ, more) (omega (arith, counted_in-add_to n bs (omega arith)))
    ]
  ]

  counted_in-merge_at :
      (i : ℕ) (bs cs : List Bin)
      → counted_in num bs < 9007199254740992
      → merge_at f i bs ≡ some cs
      → counted_in num cs ≡ counted_in num bs
  unfolding merge_at merge
  counted_in-merge_at zero bs cs h e = ground arith
  counted_in-merge_at (suc i) [] cs h e = ground arith
  counted_in-merge_at (suc zero) (a ∷ []) cs h e = ground arith
  counted_in-merge_at (suc zero) (a ∷ b ∷ bs) cs h e =
      ground (arith, exact.plus a.count b.count (omega arith))
  counted_in-merge_at (suc (suc i)) (a ∷ bs) cs h e = elim (Option-cases (merge_at f (suc i) bs)) [
    | inl e' ↦ ground arith
    | inr (ds, e') ↦ ground (arith, counted_in-merge_at (suc i) bs ds (omega arith) e')
  ]

  counted_in-trim_loop :
      (fuel max : ℕ) (bs cs : List Bin)
      → counted_in num bs < 9007199254740992
      → trim_loop f fuel max bs ≡ some cs
      → counted_in num cs ≡ counted_in num bs
  unfolding trim_loop
  counted_in-trim_loop zero max bs cs h e = ground arith
  counted_in-trim_loop (suc fuel) max bs cs h e =
      let i = closest f bs in
      elim (Option-cases (merge_at f i bs)) [
        | inl e' ↦ ground arith
        | inr (ds, e') ↦
            let kept = counted_in-merge_at i bs ds h e' in
            ground (arith, kept, counted_in-trim_loop fuel max ds cs (omega (arith, kept)))
      ]

  pub counted_in-add :
      (h : Histogram) (n : ℕ) (h' : Histogram)
      → counted_in num h.bins ≡ h.total
      → h.total + 1 < 9007199254740992
      → add f h n ≡ some h'
      → (counted_in num h'.bins ≡ h'.total) × (h'.total ≡ h.total + 1)
  unfolding add
  counted_in-add h n h' c small e =
      let bs = add_to f n h.bins in
      let more = counted_in-add_to n h.bins (omega (arith, c)) in
      elim (Option-cases (trim_loop f (length bs) h.max_bins bs)) [
        | inl e' ↦ unfold trim in ground arith
        | inr (cs, e') ↦
            let kept =
              counted_in-trim_loop (length bs) h.max_bins bs cs (omega (arith, more, c)) e' in
            unfold trim in ground (arith, kept, more)
      ]

  add_all-counted :
      (ns : List ℕ) (h h' : Histogram)
      → counted_in num h.bins ≡ h.total
      → length h.bins ≤ h.max_bins
      → h.total + length ns < 9007199254740992
      → add_all f ns h ≡ some h'
      → (counted_in num h'.bins ≡ h'.total)
        × (h'.total ≡ h.total + length ns)
        × (length h'.bins ≤ h.max_bins)
  unfolding add_all
  add_all-counted [] h h' c fits small e = ground arith
  add_all-counted (n ∷ ns) h h' c fits small e = elim (Option-cases (add f h n)) [
    | inl e' ↦ ground arith
    | inr (g, e') ↦
        let (c', t) = counted_in-add h n g c (omega arith) e' in
        let (fits', max, t') = length-add f h n e' in
        ground (arith, add_all-counted ns g h' c' (omega (arith, fits', max)) (omega (arith, t)))
  ]

  -- After fewer than 2 ^ 53 values were added to a new histogram, one after the other, where no call
  -- panics and the floats count exactly below 2 ^ 53, the counts of the bins and the total are both the
  -- number of the values, and there are at most as many bins as the histogram was made for.
  pub new_histogram-counted :
      (max : ℕ) (ns : List ℕ) (h : Histogram)
      → length ns < 9007199254740992
      → add_all f ns (new_histogram max) ≡ some h
      → (counted_in num h.bins ≡ length ns) × (h.total ≡ length ns) × (length h.bins ≤ max)
  unfolding new_histogram
  new_histogram-counted max ns h small e =
      let (c, t, fits) =
        add_all-counted ns (new_histogram max) h refl (omega arith) (omega arith) e in
      (omega (arith, c, t), omega (arith, t), fits)
