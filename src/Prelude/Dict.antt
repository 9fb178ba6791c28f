-- ===== src/Prelude/Dict.antt =====
-- Go's `map[string]V` as an association list with one entry for a key. The order of the entries
-- stands for the order in which a `range` loop meets them, which Go leaves open.
use Prim.Native.String.{String}
use mathlib.Core.Path.{◌≡◌, refl}
use mathlib.Core.Bool.{false}
use mathlib.Core.Option.{Option, none, some}
use mathlib.Core.List.{List, [], ◌∷◌, ◌++◌}
use native.Mathlib.Omega.{arith}
use text.Mathlib.Text.{◌==◌ as str_eq}
use text.Mathlib.TextEquality.{eq_iff}
use text.Mathlib.TextPositions.{eq_refl}
use nats_mq.Prelude.Tests.{if◌then◌else◌}

abbrev pub Dict {ℓ} : Type ℓ → Type ℓ
Dict V = List (String × V)

module _ {ℓ} {V : Type ℓ} where
  -- v, ok := m[key]
  unfoldable pub lookup : String → Dict V → Option V
  lookup key [] = none
  lookup key (entry ∷ rest) = if str_eq entry.0 key then some entry.1 else lookup key rest

  -- m[key] = value
  unfoldable pub insert : String → V → Dict V → Dict V
  insert key value [] = (key, value) ∷ []
  insert key value (entry ∷ rest) =
      let changed = insert key value rest in
      if str_eq entry.0 key then (key, value) ∷ rest else entry ∷ changed

  -- delete(m, key)
  unfoldable pub erase : String → Dict V → Dict V
  erase key [] = []
  erase key (entry ∷ rest) =
      let others = erase key rest in if str_eq entry.0 key then others else entry ∷ others

  pub lookup-insert :
      (key other : String) (value : V) (m : Dict V)
      → lookup other (insert key value m)
        ≡ (if str_eq key other then some value else lookup other m)
  unfolding lookup insert
  lookup-insert key other value [] = refl
  lookup-insert key other value (entry ∷ rest) =
      let first = entry.0 in
      ground (
        arith,
        lookup-insert key other value rest,
        eq_iff first key,
        eq_iff first other,
        eq_iff key other,
      )

  pub lookup-erase :
      (key other : String) (m : Dict V)
      → lookup other (erase key m) ≡ (if str_eq key other then none else lookup other m)
  unfolding lookup erase
  lookup-erase key other [] = ground arith
  lookup-erase key other (entry ∷ rest) =
      let first = entry.0 in
      ground
        (arith, lookup-erase key other rest, eq_iff first key, eq_iff first other, eq_iff key other)

  -- A new key comes last.
  pub insert-new :
      (key : String) (value : V) (m : Dict V)
      → lookup key m ≡ none
      → insert key value m ≡ m ++ (key, value) ∷ []
  unfolding lookup insert
  insert-new key value [] h = refl
  insert-new key value (entry ∷ rest) h = ground (arith, insert-new key value rest)

  pub lookup-append_new :
      (key : String) (value : V) (m rest : Dict V)
      → lookup key m ≡ none
      → lookup key (m ++ (key, value) ∷ rest) ≡ some value
  unfolding lookup
  lookup-append_new key value [] rest h = ground (arith, eq_refl key)
  lookup-append_new key value (entry ∷ m) rest h =
      ground (arith, lookup-append_new key value m rest)

  -- A key is absent after an entry was added at the end, exactly if it was before and is another key.
  pub absent_of_append :
      (key other : String) (value : V) (m : Dict V)
      → lookup other (m ++ (key, value) ∷ []) ≡ none
      → (lookup other m ≡ none) × (str_eq key other ≡ false)
  unfolding lookup
  absent_of_append key other value [] h = ground arith
  absent_of_append key other value (entry ∷ m) h =
      ground (arith, absent_of_append key other value m)

  pub append-absent :
      (key other : String) (value : V) (m : Dict V)
      → lookup other m ≡ none
      → str_eq key other ≡ false
      → lookup other (m ++ (key, value) ∷ []) ≡ none
  unfolding lookup
  append-absent key other value [] h ne = ground arith
  append-absent key other value (entry ∷ m) h ne = ground (arith, append-absent key other value m)
