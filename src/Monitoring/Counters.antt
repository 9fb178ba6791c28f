-- ===== src/Monitoring/Counters.antt =====
-- The request counters of nats-mq/core/monitoring.go: what a count and a copy of them do.
use nats_mq.Prelude.{
  ℕ, ◌+◌, ◌%◌, ◌≡◌, refl, ap, ◌∙◌, String, true, [], ◌∷◌, Option, none, some, subst, inl, inr,
  Bool-cases, arith, eq_iff, str_eq, if◌then◌else◌,
}
use nats_mq.Prelude.Dict.{Dict, lookup, insert, lookup-insert}
use nats_mq.Stats.{int64_mod}
use nats_mq.Monitoring.{Monitor, fresh_counts, count_of, count_request, copy_counts}

-- What a request adds to the counter of a path, by the counter that it goes to.
abbrev pub hits : Option String → String → ℕ
hits none path = 0
hits (some p) path = if str_eq p path then 1 else 0

module _ {V : Type 0} where
  abbrev or_else : Option V → Option V → Option V
  or_else none o = o
  or_else (some v) o = some v

  -- No key has two entries.
  pub IsDistinct : Dict V → Type 0
  IsDistinct [] = Unit
  IsDistinct (e ∷ rest) = (lookup e.0 rest ≡ none) × IsDistinct rest

  insert-IsDistinct :
      (key : String) (value : V) (m : Dict V) → IsDistinct m → IsDistinct (insert key value m)
  unfolding IsDistinct insert lookup
  insert-IsDistinct key value [] d = (refl, tt)
  insert-IsDistinct key value (e ∷ rest) (d, ds) = elim (Bool-cases (str_eq e.0 key)) [
    | inl same ↦
        let k : e.0 ≡ key = ground (arith, eq_iff e.0 key, same) in
        rw same ((subst (λ t. lookup t rest ≡ none) k d, ds))
    | inr other ↦ rw other (
        (
          ground
              (arith, lookup-insert key e.0 value rest, eq_iff e.0 key, eq_iff key e.0, d, other),
          insert-IsDistinct key value rest ds,
        ))
  ]

or_else-insert :
    (p k : String) (v : ℕ) (to : Dict ℕ) (o : Option ℕ)
    → (str_eq k p ≡ true → o ≡ none)
    → or_else o (lookup p (insert k v to))
      ≡ or_else (if str_eq k p then some v else o) (lookup p to)
or_else-insert p k v to none h = ground (arith, lookup-insert k p v to)
or_else-insert p k v to (some w) h = elim (Bool-cases (str_eq k p)) [
  | inl same ↦ let impossible : some w ≡ none = h same in cc
  | inr other ↦ rw other refl
]

lookup-copy_counts :
    (p : String) (counts to : Dict ℕ)
    → IsDistinct counts
    → lookup p (copy_counts counts to) ≡ or_else (lookup p counts) (lookup p to)
unfolding copy_counts lookup IsDistinct
lookup-copy_counts p [] to d = refl
lookup-copy_counts p ((k, v) ∷ rest) to (d, ds) =
    lookup-copy_counts p rest (insert k v to) ds
    ∙ or_else-insert p k v to (lookup p rest)
        (λ same. subst (λ t. lookup t rest ≡ none) (ground (arith, eq_iff k p, same)) d)

or_else-none : (o : Option ℕ) → or_else o none ≡ o
or_else-none none = refl
or_else-none (some v) = refl

pub copied :
    (p : String) (counts : Dict ℕ)
    → IsDistinct counts
    → lookup p (copy_counts counts []) ≡ lookup p counts
unfolding lookup
copied p counts d = lookup-copy_counts p counts [] d ∙ or_else-none (lookup p counts)

-- The counters of a server that has started: each key has one entry, and every number is an int64.
pub record Counts (m : Monitor) (number : String → ℕ) : Type 0 where
  pub counts : Dict ℕ
  pub held : m.http_req_stats ≡ some counts
  pub distinct : IsDistinct counts
  pub counted : (p : String) → count_of (lookup p counts) ≡ number p % int64_mod

count_hit :
    (p key : String) (n : ℕ) (counts : Dict ℕ) (number : String → ℕ)
    → count_of (lookup p counts) ≡ number p % int64_mod
    → count_of (lookup key counts) ≡ number key % int64_mod
    → n ≡ (count_of (lookup key counts) + 1) % int64_mod
    → count_of (lookup p (insert key n counts)) ≡ (hits (some key) p + number p) % int64_mod
count_hit p key n counts number a b e = elim (Bool-cases (str_eq key p)) [
  | inl same ↦
      let k : key ≡ p = ground (arith, eq_iff key p, same) in
      let b' : count_of (lookup key counts) ≡ number p % int64_mod =
        b ∙ ap (λ t. number t % int64_mod) k in
      rw (lookup-insert key p n counts, same) (omega (arith, e, b'))
  | inr other ↦ rw (lookup-insert key p n counts, other) (omega (arith, a))
]

pub count_request-Counts :
    (key : String) (m : Monitor) (number : String → ℕ)
    → Counts m number
    → (m' : Monitor) × (count_request key m ≡ some m')
      × Counts m' (λ p. hits (some key) p + number p)
unfolding count_request
count_request-Counts key m number c = rw c.held (
  _,
  refl,
  record {
    counts = insert key ((count_of (lookup key c.counts) + 1) % int64_mod) c.counts;
    held = refl;
    distinct = insert-IsDistinct _ _ _ c.distinct;
    counted = λ p. count_hit p key _ c.counts number (c.counted p) (c.counted key) refl;
  },
)

pub Counts-same :
    {m : Monitor} {number : String → ℕ} (other : String → ℕ)
    → ((p : String) → number p ≡ other p)
    → Counts m number
    → Counts m other
Counts-same other h c = record {
  counts = c.counts;
  held = c.held;
  distinct = c.distinct;
  counted = λ p. c.counted p ∙ ap (λ k. k % int64_mod) (h p);
}

pub fresh-Counts : (m : Monitor) → m.http_req_stats ≡ some fresh_counts → Counts m (λ p. 0)
unfolding lookup IsDistinct
fresh-Counts m e = record {
  counts = fresh_counts;
  held = e;
  distinct = (refl, (refl, (refl, tt)));
  counted = λ p. ground arith;
}
