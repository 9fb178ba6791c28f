-- ===== src/Convert/Bytes/Padding.antt =====
-- A byte field that nats-mq/core/msgconv.go pads for MQ and trims again for NATS.
use mathlib.Core.List.{reverse-append, reverse-reverse}
use nats_mq.Prelude.{
  ℕ, zero, suc, ◌-◌, ◌≤◌, ◌≡◌, refl, ap, ◌∙◌, List, [], ◌∷◌, ◌++◌, length, reverse, arith,
}
use nats_mq.Convert.Bytes.{trim_left, copy_byte_array, copy_byte_array_if_not_empty}
use nats_mq.Convert.Bytes.RoundTrip.{
  zeros, NonzeroHead, trim_left_of_NonzeroHead, copy-pads, reverse-zeros,
}

trim_left-zeros_append : (k : ℕ) (bs : List ℕ) → trim_left (zeros k ++ bs) ≡ trim_left bs
unfolding trim_left
trim_left-zeros_append zero bs = refl
trim_left-zeros_append (suc k) bs = trim_left-zeros_append k bs

NonzeroHead-append : (bs cs : List ℕ) → NonzeroHead bs → NonzeroHead (bs ++ cs)
NonzeroHead-append [] cs h = absurd h
NonzeroHead-append (b ∷ bs) cs h = h

-- A field that fits and neither starts nor ends with a zero byte is padded to the field's length, and
-- comes back from there.
pub copy_byte_array-copy_byte_array_if_not_empty :
    (id def : List ℕ) (size : ℕ)
    → NonzeroHead id
    → NonzeroHead (reverse id)
    → length id ≤ size
    → copy_byte_array (copy_byte_array_if_not_empty id def size) ≡ id
unfolding copy_byte_array
copy_byte_array-copy_byte_array_if_not_empty id def size head last fits =
    let k = size - length id in
    let front = trim_left_of_NonzeroHead (id ++ zeros k) (NonzeroHead-append id (zeros k) head) in
    let turned : reverse (id ++ zeros k) ≡ zeros k ++ reverse id =
      reverse-append id (zeros k) ∙ ap (λ t. t ++ reverse id) (reverse-zeros k) in
    let back = trim_left-zeros_append k (reverse id) ∙ trim_left_of_NonzeroHead (reverse id) last in
    rw (copy-pads id def k size head (omega arith), front, turned, back) (reverse-reverse id)
