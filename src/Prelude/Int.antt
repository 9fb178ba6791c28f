-- ===== src/Prelude/Int.antt =====
-- Signed integers over the native numbers, and the conversions between Go's sized integers.
use Prim.Native.Nat.{ℕ, ◌-◌, ◌*◌, ◌%◌, ◌<◌}
use mathlib.Core.Bool.{Bool, false}
use nats_mq.Prelude.Tests.{ltb, ◌==◌, if◌then◌else◌}

-- `negsuc n` is -(n + 1).
pub data ℤ : Type 0 where
  pos : ℕ → ℤ
  negsuc : ℕ → ℤ

-- The value lies in the range of a signed integer whose values run from -half to half - 1.
abbrev pub Fits : ℕ → ℤ → Type 0
Fits half (pos n) = n < half
Fits half (negsuc n) = n < half

-- The bit pattern with `2 * half` values, read as a signed integer.
abbrev pub of_bits : ℕ → ℕ → ℤ
of_bits half b = if ltb b half then pos b else negsuc (2 * half - 1 - b)

-- Go's conversion to a signed type: the low bits are kept, and read with a sign.
abbrev pub wrap : ℕ → ℤ → ℤ
wrap half (pos n) = of_bits half (n % (2 * half))
wrap half (negsuc n) = of_bits half (2 * half - 1 - n % (2 * half))

abbrev pub eqb_ℤ : ℤ → ℤ → Bool
eqb_ℤ (pos a) (pos b) = a == b
eqb_ℤ (negsuc a) (negsuc b) = a == b
eqb_ℤ _ _ = false
