-- ===== src/Convert/Bytes.antt =====
-- The byte fields of a descriptor: copyByteArray and copyByteArrayIfNotEmpty of
-- nats-mq/core/msgconv.go.
pub mod RoundTrip
pub mod Padding
use nats_mq.Prelude.{
  ℕ, ◌-◌, ◌==◌, if◌then◌else◌, List, [], ◌∷◌, ◌++◌, length, take, replicate, reverse,
}

-- The part of bytes.Trim(b, "\x00") that removes the zeros at the front.
pub trim_left : List ℕ → List ℕ
trim_left [] = []
trim_left (b ∷ bs) = if b == 0 then trim_left bs else b ∷ bs

unfoldable pub copy_byte_array : List ℕ → List ℕ
unfolding trim_left
copy_byte_array bs = reverse (trim_left (reverse (trim_left bs)))

-- copy(dst, src) into `size` zeros: as many bytes as fit, and zeros behind them.
abbrev pub copy_into : ℕ → List ℕ → List ℕ
copy_into size bs = take size bs ++ replicate (size - length bs) 0

unfoldable pub copy_byte_array_if_not_empty : List ℕ → List ℕ → ℕ → List ℕ
copy_byte_array_if_not_empty [] def size = def
copy_byte_array_if_not_empty (b ∷ bs) def size = copy_into size (b ∷ bs)
