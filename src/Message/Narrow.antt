-- ===== src/Message/Narrow.antt =====
-- Go's conversions to the narrow integer types keep the values that fit.
use native.Mathlib.Nat.{mod-eq_of_lt}
use nats_mq.Prelude.{ℕ, ◌*◌, ◌≡◌, arith}
use nats_mq.Prelude.Int.{ℤ, pos, negsuc, Fits, wrap}

pub wrap-Fits : (half : ℕ) (z : ℤ) → Fits half z → wrap half z ≡ z
wrap-Fits half (pos n) h = ground (arith, mod-eq_of_lt {n = n} {m = 2 * half} (omega arith))
wrap-Fits half (negsuc n) h = ground (arith, mod-eq_of_lt {n = n} {m = 2 * half} (omega arith))
