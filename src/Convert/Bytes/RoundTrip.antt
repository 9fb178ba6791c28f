-- ===== src/Convert/Bytes/RoundTrip.antt =====
-- Which byte fields survive the trimming on the way to NATS and the padding on the way back.
use mathlib.Core.List.{reverse-append, reverse-cons, reverse-reverse}
use nats_mq.Prelude.{
  ℕ, zero, suc, ◌+◌, ◌-◌, ◌<◌, ◌≡◌, ◌≢◌, ◌↔◌, ◌⊎◌, inl, inr, refl, sym, ap, subst, ◌∙◌, ◌==◌,
  Bool-cases, List, [], ◌∷◌, ◌++◌, length, replicate, reverse, length-append, length-replicate,
  take-length, arith,
}
use nats_mq.Convert.Bytes.{trim_left, copy_byte_array, copy_into, copy_byte_array_if_not_empty}

abbrev pub zeros : ℕ → List ℕ
zeros k = replicate k 0

zeros_suc : (k : ℕ) → zeros k ++ 0 ∷ [] ≡ 0 ∷ zeros k
zeros_suc zero = refl
zeros_suc (suc k) = ap (λ (t : List ℕ). 0 ∷ t) (zeros_suc k)

pub reverse-zeros : (k : ℕ) → reverse (zeros k) ≡ zeros k
reverse-zeros zero = refl
reverse-zeros (suc k) =
    reverse-cons 0 (zeros k) ∙ ap (λ (t : List ℕ). t ++ 0 ∷ []) (reverse-zeros k) ∙ zeros_suc k

-- What trim_left removes is zeros.
trim_left-zeros : (bs : List ℕ) → (k : ℕ) × (bs ≡ zeros k ++ trim_left bs)
unfolding trim_left
trim_left-zeros [] = (0, refl)
trim_left-zeros (b ∷ bs) = elim (Bool-cases (b == 0)) [
  | inl z ↦ (suc (trim_left-zeros bs).0, ground (arith, (trim_left-zeros bs).1))
  | inr nz ↦ (0, ground arith)
]

trim_right : List ℕ → List ℕ
trim_right bs = reverse (trim_left (reverse bs))

trim_right-zeros : (bs : List ℕ) → (k : ℕ) × (bs ≡ trim_right bs ++ zeros k)
unfolding trim_right
trim_right-zeros bs =
    let (k, e) = trim_left-zeros (reverse bs) in
    (
      k,
      sym (reverse-reverse bs)
          ∙ ap reverse e
          ∙ reverse-append (zeros k) (trim_left (reverse bs))
          ∙ ap (λ (t : List ℕ). reverse (trim_left (reverse bs)) ++ t) (reverse-zeros k),
    )

-- The first byte is there and is not zero.
abbrev pub NonzeroHead : List ℕ → Type 0
NonzeroHead [] = ⊥
NonzeroHead (b ∷ bs) = b ≢ 0

pub trim_left_of_NonzeroHead : (bs : List ℕ) → NonzeroHead bs → trim_left bs ≡ bs
unfolding trim_left
trim_left_of_NonzeroHead [] h = absurd h
trim_left_of_NonzeroHead (b ∷ bs) h = ground arith

trim_left-cases : (bs : List ℕ) → (trim_left bs ≡ []) ⊎ NonzeroHead (trim_left bs)
unfolding trim_left
trim_left-cases [] = inl refl
trim_left-cases (b ∷ bs) = elim (Bool-cases (b == 0)) [
  | inl z ↦ rw z (trim_left-cases bs)
  | inr nz ↦ rw nz (inr (ground arith))
]

all_zeros_of_trim : (bs : List ℕ) → trim_left bs ≡ [] → bs ≡ zeros (length bs)
unfolding trim_left
all_zeros_of_trim [] e = refl
all_zeros_of_trim (b ∷ bs) e = ground (arith, all_zeros_of_trim bs)

trim_left-all_zeros : (k : ℕ) → trim_left (zeros k) ≡ []
unfolding trim_left
trim_left-all_zeros zero = refl
trim_left-all_zeros (suc k) = trim_left-all_zeros k

nonzero_front :
    (p : List ℕ) (k : ℕ) {cs : List ℕ} → cs ≡ p ++ zeros k → NonzeroHead cs → NonzeroHead p
nonzero_front [] zero e h = subst NonzeroHead e h
nonzero_front [] (suc k) e h = absurd (subst NonzeroHead e h refl)
nonzero_front (c ∷ p) k e h = subst NonzeroHead e h

-- A list with a nonzero head keeps it when the zeros at its end go.
trim_right-NonzeroHead : (bs : List ℕ) → NonzeroHead bs → NonzeroHead (trim_right bs)
trim_right-NonzeroHead bs h =
    nonzero_front (trim_right bs) (trim_right-zeros bs).0 (trim_right-zeros bs).1 h

pub copy-pads :
    (p def : List ℕ) (k size : ℕ)
    → NonzeroHead p
    → size ≡ length p + k
    → copy_byte_array_if_not_empty p def size ≡ p ++ zeros k
unfolding copy_byte_array_if_not_empty
copy-pads [] def k size h e = absurd h
copy-pads (c ∷ p) def k size h e =
    rw (take-length size (c ∷ p) (omega arith)) (ap (λ n. (c ∷ p) ++ zeros n) (omega arith))

copy_byte_array_lem : (bs : List ℕ) → copy_byte_array bs ≡ trim_right (trim_left bs)
unfolding copy_byte_array trim_right
copy_byte_array_lem bs = refl

length-trim_right : (bs : List ℕ) → length bs ≡ length (trim_right bs) + (trim_right-zeros bs).0
length-trim_right bs =
    let (k, e) = trim_right-zeros bs in
    ap length e
    ∙ length-append (trim_right bs) (zeros k)
    ∙ ap (λ n. length (trim_right bs) + n) (length-replicate k 0)

nonzero_comes_back :
    (id def : List ℕ)
    → NonzeroHead id
    → copy_byte_array_if_not_empty (copy_byte_array id) def (length id) ≡ id
nonzero_comes_back id def h =
    let (k, e) = trim_right-zeros id in
    rw (copy_byte_array_lem, trim_left_of_NonzeroHead id h)
      (copy-pads (trim_right id) def k (length id) (trim_right-NonzeroHead id h)
          (length-trim_right id)
        ∙ sym e)

zeros_come_back :
    (def : List ℕ) (k size : ℕ)
    → copy_byte_array_if_not_empty (copy_byte_array (zeros k)) def size ≡ def
unfolding copy_byte_array copy_byte_array_if_not_empty
zeros_come_back def k size = rw (trim_left-all_zeros k)

-- What is put back of a field whose trimming is not empty starts with a nonzero byte.
copied-NonzeroHead :
    (p def : List ℕ) (size : ℕ)
    → NonzeroHead p
    → 0 < size
    → NonzeroHead (copy_byte_array_if_not_empty p def size)
unfolding copy_byte_array_if_not_empty
copied-NonzeroHead [] def size h lt = absurd h
copied-NonzeroHead (c ∷ p) def zero h lt = absurd (omega arith)
copied-NonzeroHead (c ∷ p) def (suc size) h lt = h

-- A nonempty byte field that is trimmed and padded back to its length comes back unchanged exactly
-- when its first byte is not zero or all its bytes are zero, if the default is the field of zeros.
pub copy_byte_array_round_trip :
    (id : List ℕ)
    → 0 < length id
    → (copy_byte_array_if_not_empty (copy_byte_array id) (zeros (length id)) (length id) ≡ id)
      ↔ (NonzeroHead id ⊎ (id ≡ zeros (length id)))
copy_byte_array_round_trip id lt = (there, back)
  where
    back :
        NonzeroHead id ⊎ (id ≡ zeros (length id))
        → copy_byte_array_if_not_empty (copy_byte_array id) (zeros (length id)) (length id) ≡ id
    back (inl h) = nonzero_comes_back id (zeros (length id)) h
    back (inr e) =
        ap (λ bs. copy_byte_array_if_not_empty (copy_byte_array bs) (zeros (length id)) (length id))
          e
        ∙ zeros_come_back (zeros (length id)) (length id) (length id)
        ∙ sym e

    there :
        copy_byte_array_if_not_empty (copy_byte_array id) (zeros (length id)) (length id) ≡ id
        → NonzeroHead id ⊎ (id ≡ zeros (length id))
    there e = elim (trim_left-cases id) [
      | inl none_left ↦ inr (all_zeros_of_trim id none_left)
      | inr h ↦ inl (
          subst NonzeroHead e
            (rw copy_byte_array_lem (copied-NonzeroHead _ _ _ (trim_right-NonzeroHead _ h) lt)))
    ]

length-copy_into : (size : ℕ) (bs : List ℕ) → length (copy_into size bs) ≡ size
length-copy_into zero bs =
    let e : length (zeros (0 - length bs)) ≡ 0 - length bs = length-replicate _ _ in
    omega (arith, e)
length-copy_into (suc size) [] =
    let e : length (zeros (suc size - 0)) ≡ suc size - 0 = length-replicate _ _ in omega (arith, e)
length-copy_into (suc size) (b ∷ bs) =
    let e : suc size - suc (length bs) ≡ size - length bs = omega arith in
    rw e (ap suc (length-copy_into size bs))

-- A byte field that is put into a descriptor has the field's length, whatever the header held, if the
-- default has.
pub length-copy_byte_array_if_not_empty :
    (bs def : List ℕ) (size : ℕ)
    → length def ≡ size
    → length (copy_byte_array_if_not_empty bs def size) ≡ size
unfolding copy_byte_array_if_not_empty
length-copy_byte_array_if_not_empty [] def size h = h
length-copy_byte_array_if_not_empty (b ∷ bs) def size h = length-copy_into size (b ∷ bs)
