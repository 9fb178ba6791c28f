-- ===== src/Float.antt =====
-- Go's float64, as far as the statistics use it. There are no floats in the logic: a value is its bit
-- pattern, and the operations of the hardware are the fields of a parameter.
use nats_mq.Prelude.{ℕ, Bool}

pub record FloatOps : Type 0 where
  pub add : ℕ → ℕ → ℕ
  pub sub : ℕ → ℕ → ℕ
  pub mul : ℕ → ℕ → ℕ
  pub div : ℕ → ℕ → ℕ
  pub lt : ℕ → ℕ → Bool
  pub eq : ℕ → ℕ → Bool
  -- the conversion of a 64-bit integer
  pub of_int : ℕ → ℕ
  -- the constants 0, 1, -1 and 1e99 of the source
  pub zero_f : ℕ
  pub one_f : ℕ
  pub minus_one : ℕ
  pub huge : ℕ
