-- ===== src/Histogram/Steady.antt =====
-- When Add of nats-mq/core/histogram.go returns: the values of the bins stay finite, since each merge
-- rounds a mean of two of them.
use nats_mq.Prelude.{
  ℕ, zero, suc, ◌+◌, ◌≤◌, ◌<◌, ◌%◌, ◌^◌, ◌≡◌, refl, inl, inr, Bool-cases, true, List, [], ◌∷◌, some,
  length, arith, ltb, subst,
}
use nats_mq.Float.{FloatOps}
use nats_mq.Histogram.{
  Bin, Histogram, new_histogram, add_to, closest, merge, merge_at, trim_loop, trim, add,
}
use nats_mq.Histogram.Bounds.{length-merge_at, length-add, min_delta_index_range}
use nats_mq.Histogram.Counts.{Exact, counted_in, add_all, counted_in-add_to, counted_in-add}

-- V m a says that a is a finite float that m roundings of means of request times can have made, as
-- an absolute value of at most 2 ^ 63 * (1 + 2 ^ -50) ^ m. For fewer than 2 ^ 50 roundings the
-- differences stay below 1e99, and a mean of two values, weighted by counts of at least 1, is made by
-- one more rounding. A 64-bit integer converts to a float of level 0.
pub record Bounded (f : FloatOps) (num : ℕ → ℕ) (V : ℕ → ℕ → Type 0) : Type 0 where
  pub near : (m a b : ℕ) → m < 1125899906842624 → V m a → V m b → f.lt (f.sub b a) f.huge ≡ true
  pub mean :
      (m a p b q : ℕ)
      → m < 1125899906842624
      → V m a
      → V m b
      → 1 ≤ num p
      → 1 ≤ num q
      → num p + num q < 9007199254740992
      → V (suc m) (f.div (f.add (f.mul a p) (f.mul b q)) (f.add p q))
  pub more : (m n a : ℕ) → m ≤ n → V m a → V n a
  pub of_int : (n : ℕ) → n < 9223372036854775808 → V 0 (f.of_int n)

abbrev pub AllBounded : (ℕ → ℕ) → (ℕ → Type 0) → List Bin → Type 0
AllBounded num W [] = Unit
AllBounded num W (b ∷ bs) = W b.value × (1 ≤ num b.count) × AllBounded num W bs

-- The bins fit in, count the total together, and have made at most as many roundings as values came.
abbrev pub IsSteady : (ℕ → ℕ) → (ℕ → ℕ → Type 0) → Histogram → Type 0
IsSteady num V h =
    (1 ≤ h.max_bins)
    × (length h.bins ≤ h.max_bins)
    × (counted_in num h.bins ≡ h.total)
    × AllBounded num (V h.total) h.bins

-- Durations of 64 bits.
abbrev pub AllTimes : List ℕ → Type 0
AllTimes [] = Unit
AllTimes (n ∷ ns) = (n < 9223372036854775808) × AllTimes ns

abbrev pub as_floats : FloatOps → List ℕ → List ℕ
as_floats f [] = []
as_floats f (n ∷ ns) = f.of_int n ∷ as_floats f ns

module _ (f : FloatOps) (num : ℕ → ℕ) (V : ℕ → ℕ → Type 0) (exact : Exact f num)
    (bounded : Bounded f num V) where
  AllBounded-more :
      (m n : ℕ) (bs : List Bin) → m ≤ n → AllBounded num (V m) bs → AllBounded num (V n) bs
  AllBounded-more m n [] h t = tt
  AllBounded-more m n (b ∷ bs) h t =
      (bounded.more m n b.value h t.0, t.1, AllBounded-more m n bs h t.2)

  one_counts : 1 ≤ num f.one_f
  one_counts = omega (arith, exact.one)

  add_to-AllBounded :
      (m n : ℕ) (bs : List Bin)
      → V m n
      → counted_in num bs + 1 < 9007199254740992
      → AllBounded num (V m) bs
      → AllBounded num (V m) (add_to f n bs)
  unfolding add_to
  add_to-AllBounded m n [] v small t = (v, one_counts, tt)
  add_to-AllBounded m n (b ∷ bs) v small t = elim (Bool-cases (f.eq b.value n)) [
    | inl same ↦
        let sum = exact.plus b.count f.one_f (omega (arith, exact.one, small)) in
        rw same (t.0, omega (arith, sum, exact.one), t.2)
    | inr differ ↦ elim (Bool-cases (f.lt n b.value)) [
      | inl less ↦ rw (differ, less) (v, one_counts, t)
      | inr more ↦
          rw (differ, more) (t.0, t.1, add_to-AllBounded m n bs v (omega (arith, small)) t.2)
    ]
  ]

  length-add_to : (n : ℕ) (bs : List Bin) → length (add_to f n bs) ≤ suc (length bs)
  unfolding add_to
  length-add_to n [] = omega arith
  length-add_to n (b ∷ bs) = ground (arith, length-add_to n bs)

  -- With two bins or more the search finds an index of a bin that has one before it.
  closest_range :
      (m : ℕ) (bs : List Bin)
      → m < 1125899906842624
      → AllBounded num (V m) bs
      → 1 < length bs
      → (1 ≤ closest f bs) × (closest f bs < length bs)
  unfolding closest
  closest_range m [] low t h = omega arith
  closest_range m (a ∷ []) low t h = omega arith
  closest_range m (a ∷ b ∷ bs) low t h =
      rw (bounded.near m a.value b.value low t.0 t.2.0)
        (ground (arith, min_delta_index_range f 2 b.value (f.sub b.value a.value) 1 bs))

  merge_at-AllBounded :
      (i m : ℕ) (bs : List Bin)
      → 1 ≤ i
      → i < length bs
      → m < 1125899906842624
      → counted_in num bs < 9007199254740992
      → AllBounded num (V m) bs
      → (cs : List Bin) × (merge_at f i bs ≡ some cs) × AllBounded num (V (suc m)) cs
  unfolding merge_at merge
  merge_at-AllBounded zero m bs h lt low small t = absurd (omega arith)
  merge_at-AllBounded (suc i) m [] h lt low small t = absurd (omega arith)
  merge_at-AllBounded (suc zero) m (a ∷ []) h lt low small t = absurd (omega arith)
  merge_at-AllBounded (suc zero) m (a ∷ b ∷ bs) h lt low small t =
      let few : num a.count + num b.count < 9007199254740992 = omega (arith, small) in
      let sum = exact.plus a.count b.count few in
      (
        merge f a b ∷ bs,
        refl,
        (
          bounded.mean m a.value a.count b.value b.count low t.0 t.2.0 t.1 t.2.1 few,
          omega (arith, sum, t.1),
          AllBounded-more m (suc m) bs (omega arith) t.2.2,
        ),
      )
  merge_at-AllBounded (suc (suc i)) m (a ∷ bs) h lt low small t =
      let (cs, e, u) =
        merge_at-AllBounded (suc i) m bs (omega arith) (omega arith) low (omega (arith, small))
          t.2 in
      (a ∷ cs, rw e, (bounded.more m (suc m) a.value (omega arith) t.0, t.1, u))

  trim_loop-fits :
      (fuel max : ℕ) (bs : List Bin) → length bs ≤ max → trim_loop f fuel max bs ≡ some bs
  unfolding trim_loop
  trim_loop-fits zero max bs fits = refl
  trim_loop-fits (suc fuel) max bs fits = ground (arith, fits)

  -- With one bin too many at most, one merge is enough.
  trim_loop-AllBounded :
      (fuel max m : ℕ) (bs : List Bin)
      → 1 ≤ max
      → length bs ≤ suc max
      → m < 1125899906842624
      → counted_in num bs < 9007199254740992
      → AllBounded num (V m) bs
      → (cs : List Bin) × (trim_loop f fuel max bs ≡ some cs) × AllBounded num (V (suc m)) cs
  unfolding trim_loop
  trim_loop-AllBounded zero max m bs h fits low small t =
      (bs, refl, AllBounded-more m (suc m) bs (omega arith) t)
  trim_loop-AllBounded (suc fuel) max m bs h fits low small t =
      elim (Bool-cases (ltb max (length bs))) [
        | inr few ↦ (bs, ground arith, AllBounded-more m (suc m) bs (omega arith) t)
        | inl over ↦
            let (first, last) = closest_range m bs low t (ground (arith, over, h)) in
            let (cs, e, u) = merge_at-AllBounded (closest f bs) m bs first last low small t in
            let len = length-merge_at f (closest f bs) bs cs e in
            let rest = trim_loop-fits fuel max cs (omega (arith, len, fits)) in
            (cs, ground arith, u)
      ]

  add_lem :
      (h : Histogram) (n : ℕ) (cs : List Bin)
      → (let bs = add_to f n h.bins in trim_loop f (length bs) h.max_bins bs ≡ some cs)
      → add f h n
        ≡ some (record { bins = cs; max_bins = h.max_bins; total = (h.total + 1) % 2 ^ 64 })
  unfolding add
  add_lem h n cs e = rw (e, trim)

  -- Add of a request time to a steady histogram that has counted fewer than 2 ^ 50 - 1 values returns
  -- and leaves a steady histogram that counts one value more.
  pub add-IsSteady :
      (h : Histogram) (n : ℕ)
      → IsSteady num V h
      → h.total + 1 < 1125899906842624
      → V 0 n
      → (h' : Histogram) × (add f h n ≡ some h') × IsSteady num V h' × (h'.total ≡ h.total + 1)
  add-IsSteady h n (room, fits, counts, t) low v =
      let bs = add_to f n h.bins in
      let more_counts = counted_in-add_to f num exact n h.bins (omega (arith, counts, low)) in
      let longer = length-add_to n h.bins in
      let bounded_bins =
        add_to-AllBounded h.total n h.bins (bounded.more 0 h.total n (omega arith) v)
          (omega (arith, counts, low)) t in
      let (cs, e, u) =
        trim_loop-AllBounded (length bs) h.max_bins h.total bs room (omega (arith, longer, fits))
          (omega (arith, low)) (omega (arith, more_counts, counts, low)) bounded_bins in
      let h' : Histogram = record {
        bins = cs;
        max_bins = h.max_bins;
        total = (h.total + 1) % 2 ^ 64;
      } in
      let added : add f h n ≡ some h' = add_lem h n cs e in
      let (counts', total') = counted_in-add f num exact h n h' counts (omega (arith, low)) added in
      let (fits', kept, sum) = length-add f h n added in
      (
        h',
        added,
        (room, fits', counts', subst (λ k. AllBounded num (V k) cs) (omega (arith, total')) u),
        total',
      )

  add_all_returns :
      (ns : List ℕ) (h : Histogram)
      → IsSteady num V h
      → h.total + length ns < 1125899906842624
      → AllTimes ns
      → (h' : Histogram) × (add_all f (as_floats f ns) h ≡ some h')
        × IsSteady num V h'
        × (h'.total ≡ h.total + length ns)
  unfolding add_all
  add_all_returns [] h steady few times = (h, refl, steady, omega arith)
  add_all_returns (n ∷ ns) h steady few times =
      let (g, e, steady', t) =
        add-IsSteady h (f.of_int n) steady (omega (arith, few)) (bounded.of_int n times.0) in
      let (h', e', steady'', t') = add_all_returns ns g steady' (omega (arith, few, t)) times.1 in
      (h', rw (e, add_all) e', steady'', omega (arith, t, t'))

  -- Request times, added one after the other to a histogram that may hold a bin and is new, are all
  -- added without a panic, if they are fewer than 2 ^ 50. This assumes of the floats that they count
  -- exactly below 2 ^ 53, and that fewer than 2 ^ 50 rounded means of request times stay so small that
  -- two of them differ by less than 1e99. The histogram then counts every value once.
  pub new_histogram_returns :
      (max : ℕ) (ns : List ℕ)
      → 1 ≤ max
      → length ns < 1125899906842624
      → AllTimes ns
      → (h : Histogram) × (add_all f (as_floats f ns) (new_histogram max) ≡ some h)
        × IsSteady num V h
        × (h.total ≡ length ns)
  unfolding new_histogram
  new_histogram_returns max ns room few times =
      let (h, e, steady, t) =
        add_all_returns ns (new_histogram max) (room, omega arith, refl, tt) (omega (arith, few))
          times in
      (h, e, steady, omega (arith, t))
