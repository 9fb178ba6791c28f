-- ===== src/Prelude/Decimal.antt =====
-- An integer that is written in decimal is read back.
use Prim.Native.Nat.{ℕ, zero, suc, ◌+◌, ◌*◌, ◌/◌, ◌%◌, ◌≤◌, ◌<◌, ◌^◌}
use Prim.Native.Char.{Char, code}
use Prim.Native.String
use Prim.Native.String.{String}
use Prim.Native.String.append
use mathlib.Core.Path.{◌≡◌, refl, sym, ap, ◌∙◌}
use mathlib.Core.Bool.{true, false}
use mathlib.Core.Option.{some}
use native.Mathlib.Omega.{arith}
use mathlib.Core.Logic.{◌⊎◌, inl, inr}
use nats_mq.Prelude.Tests.{ltb}
use nats_mq.Prelude.Int.{ℤ, pos, negsuc, Fits}
use nats_mq.Prelude.Convert.{digits, number, atoi, digit, decimal, itoa}
use nats_mq.Prelude.HostPort.{has_char}

-- A digit's code and value.
digit_lem : (d : ℕ) → d < 10 → code (digit d) ≡ d + 48
digit_lem zero h = refl
digit_lem (suc zero) h = refl
digit_lem (suc (suc zero)) h = refl
digit_lem (suc (suc (suc zero))) h = refl
digit_lem (suc (suc (suc (suc zero)))) h = refl
digit_lem (suc (suc (suc (suc (suc zero))))) h = refl
digit_lem (suc (suc (suc (suc (suc (suc zero)))))) h = refl
digit_lem (suc (suc (suc (suc (suc (suc (suc zero))))))) h = refl
digit_lem (suc (suc (suc (suc (suc (suc (suc (suc zero)))))))) h = refl
digit_lem (suc (suc (suc (suc (suc (suc (suc (suc (suc zero))))))))) h = refl
digit_lem (suc (suc (suc (suc (suc (suc (suc (suc (suc (suc d)))))))))) h = absurd (omega arith)

digits-digit :
    (m d : ℕ) (t : String) → d < 10 → digits m (String.◌∷◌ (digit d) t) ≡ digits (m * 10 + d) t
unfolding digits
digits-digit m d t h = ground (arith, digit_lem d h)

digit_zero_lem : (n : ℕ) (t : String) → n < 10 → digits 0 (String.◌∷◌ (digit n) t) ≡ digits n t
digit_zero_lem n t h = digits-digit 0 n t h ∙ ap (λ m. digits m t) (omega arith)

div_mod : (n : ℕ) → n / 10 * 10 + n % 10 ≡ n
div_mod n = omega arith

ltb-cases : (a b : ℕ) → ((ltb a b ≡ true) × (a < b)) ⊎ ((ltb a b ≡ false) × (b ≤ a))
ltb-cases a b = ground arith

-- Fuel for the digits of `n`.
abbrev Enough : ℕ → ℕ → Type 0
Enough fuel n = n < 10 * suc fuel

digits-decimal :
    (fuel n : ℕ) (t : String) → Enough fuel n → digits 0 (decimal fuel n t) ≡ digits n t
unfolding decimal
digits-decimal zero n t h = let small : n % 10 ≡ n = omega arith in rw small (digit_zero_lem n t h)
digits-decimal (suc fuel) n t h = elim (ltb-cases n 10) [
  | inl (less, l) ↦ rw less (digit_zero_lem n t l)
  | inr (more, l) ↦ rw more (
      digits-decimal fuel (n / 10) (String.◌∷◌ (digit (n % 10)) t) (omega arith)
      ∙ digits-digit (n / 10) (n % 10) t (omega arith)
      ∙ ap (λ m. digits m t) (div_mod n))
]

-- The text starts with a digit.
decimal_head :
    (fuel n : ℕ) (t : String)
    → (d : ℕ) × (d < 10) × (rest : String) × (decimal fuel n t ≡ String.◌∷◌ (digit d) rest)
unfolding decimal
decimal_head zero n t = (n % 10, omega arith, t, refl)
decimal_head (suc fuel) n t = elim (ltb-cases n 10) [
  | inl (less, l) ↦ (n, l, t, rw less refl)
  | inr (more, l) ↦ rw more (decimal_head fuel (n / 10) (String.◌∷◌ (digit (n % 10)) t))
]

has_char-digit :
    (c d : ℕ) (t : String) → 57 < c → d < 10 → has_char c (String.◌∷◌ (digit d) t) ≡ has_char c t
unfolding has_char
has_char-digit c d t h l = ground (arith, digit_lem d l)

has_char-decimal :
    (c fuel n : ℕ) (t : String) → 57 < c → has_char c (decimal fuel n t) ≡ has_char c t
unfolding decimal
has_char-decimal c zero n t h = has_char-digit c (n % 10) t h (omega arith)
has_char-decimal c (suc fuel) n t h = elim (ltb-cases n 10) [
  | inl (less, l) ↦ rw less (has_char-digit c n t h l)
  | inr (more, l) ↦ rw more (
      has_char-decimal c fuel (n / 10) (String.◌∷◌ (digit (n % 10)) t) h
      ∙ has_char-digit c (n % 10) t h (omega arith))
]

minus-<> : (s : String) → String.◌++◌ "-" s ≡ String.◌∷◌ "-" s
minus-<> s = append.cons "-" "" s ∙ ap (String.◌∷◌ "-") (append.nil s)

minus-has_char : (c : ℕ) (s : String) → 57 < c → has_char c (String.◌∷◌ "-" s) ≡ has_char c s
unfolding has_char
minus-has_char c s h = ground arith

-- A character beyond the digits does not stand in the text of an integer.
pub has_char-itoa : (c : ℕ) (z : ℤ) → 57 < c → has_char c (itoa z) ≡ false
unfolding itoa
has_char-itoa c (pos n) h = has_char-decimal c n n "" h ∙ unfold has_char in refl
has_char-itoa c (negsuc n) h =
    rw minus-<> (minus-has_char c _ h ∙ has_char-decimal c n (n + 1) "" h ∙ unfold has_char in refl)

number-some :
    (s : String) (c : Char) (t : String) (n : ℕ)
    → s ≡ String.◌∷◌ c t
    → digits 0 s ≡ some n
    → number s ≡ some n
unfolding number
number-some s c t n e h = rw e (ap (digits 0) (sym e) ∙ h)

number-decimal : (fuel n : ℕ) → Enough fuel n → number (decimal fuel n "") ≡ some n
number-decimal fuel n h =
    let (d, l, rest, e) = decimal_head fuel n "" in
    number-some (decimal fuel n "") (digit d) rest n e
      (digits-decimal fuel n "" h ∙ unfold digits in refl)

atoi-digit :
    (d n : ℕ) (rest : String)
    → d < 10
    → n < 2 ^ 63
    → number (String.◌∷◌ (digit d) rest) ≡ some n
    → atoi (String.◌∷◌ (digit d) rest) ≡ some (pos n)
unfolding atoi
atoi-digit d n rest l b e = rw e (ground (arith, digit_lem d l))

atoi_minus :
    (n : ℕ) (s : String)
    → n < 2 ^ 63
    → number s ≡ some (suc n)
    → atoi (String.◌∷◌ "-" s) ≡ some (negsuc n)
unfolding atoi
atoi_minus n s b e = rw e (ground arith)

atoi-decimal : (n : ℕ) → n < 2 ^ 63 → atoi (decimal n n "") ≡ some (pos n)
atoi-decimal n b =
    let (d, l, rest, e) = decimal_head n n "" in
    rw e (atoi-digit d n rest l b (ap number (sym e) ∙ number-decimal n n (omega arith)))

-- An integer of a machine is read back from its decimal text.
pub atoi-itoa : (z : ℤ) → Fits (2 ^ 63) z → atoi (itoa z) ≡ some z
unfolding itoa
atoi-itoa (pos n) h = atoi-decimal n h
atoi-itoa (negsuc n) h = rw minus-<> (
    atoi_minus n (decimal n (n + 1) "") h
      (number-decimal n (n + 1) (omega arith) ∙ ap some (omega arith)))
