-- ===== src/Prelude/Convert.antt =====
-- Go's strings.ToLower, strconv.Atoi and strconv.Itoa, and its conversion of an integer to a string.
-- A text is a list of characters; only the ASCII letters have lower case here, and no other
-- character's lower case is a letter of "true".
use Prim.Native.Nat.{ℕ, zero, suc, ◌+◌, ◌-◌, ◌*◌, ◌/◌, ◌%◌, compare, Ordering}
use Prim.Native.Char.{Char, char, code, IsLt}
use Prim.Native.String
use Prim.Native.String.{String}
use mathlib.Core.Bool.{Bool, ◌&&◌}
use mathlib.Core.Option.{Option, none, some}
use nats_mq.Prelude.Tests.{ltb, leb, ◌==◌, if◌then◌else◌}
use nats_mq.Prelude.Int.{ℤ, pos, negsuc}

-- The character of `lower` at the place that `c` has in `upper`.
abbrev pub lower_from : Char → String → String → Char
lower_from c String.[] lower = c
lower_from c (String.◌∷◌ u us) String.[] = c
lower_from c (String.◌∷◌ u us) (String.◌∷◌ l ls) =
    let later = lower_from c us ls in if code c == code u then l else later

abbrev pub lower_char : Char → Char
lower_char c = lower_from c "ABCDEFGHIJKLMNOPQRSTUVWXYZ" "abcdefghijklmnopqrstuvwxyz"

unfoldable pub to_lower : String → String
to_lower String.[] = String.[]
to_lower (String.◌∷◌ c s) = String.◌∷◌ (lower_char c) (to_lower s)

abbrev pub is_digit : Char → Bool
is_digit c = leb b'0' (code c) && leb (code c) b'9'

abbrev pub digit_value : Char → ℕ
digit_value c = code c - b'0'

-- The value of the digits after a value that is read already.
unfoldable pub digits : ℕ → String → Option ℕ
digits n String.[] = some n
digits n (String.◌∷◌ c s) =
    let rest = digits (n * 10 + digit_value c) s in if is_digit c then rest else none

unfoldable pub number : String → Option ℕ
unfolding digits
number String.[] = none
number (String.◌∷◌ c s) = digits 0 (String.◌∷◌ c s)

abbrev positive : Option ℕ → Option ℤ
positive none = none
positive (some n) = if ltb n 9223372036854775808 then some (pos n) else none

abbrev negative : Option ℕ → Option ℤ
negative none = none
negative (some zero) = some (pos 0)
negative (some (suc n)) = if ltb n 9223372036854775808 then some (negsuc n) else none

-- strconv.Atoi; `none` is an error, also where the value is out of range.
unfoldable pub atoi : String → Option ℤ
unfolding number
atoi String.[] = none
atoi (String.◌∷◌ c s) =
    if code c == b'-'
    then negative (number s)
    else if code c == b'+'
    then positive (number s)
    else positive (number (String.◌∷◌ c s))

abbrev digit_from : ℕ → String → Char
digit_from n String.[] = Prim.Native.Char.nul
digit_from zero (String.◌∷◌ c s) = c
digit_from (suc n) (String.◌∷◌ c s) = digit_from n s

abbrev pub digit : ℕ → Char
digit n = digit_from n "0123456789"

-- The decimal digits before a text; each round takes one digit off, so n rounds are enough for n.
unfoldable pub decimal : ℕ → ℕ → String → String
decimal zero n after = String.◌∷◌ (digit (n % 10)) after
decimal (suc fuel) n after =
    let longer = decimal fuel (n / 10) (String.◌∷◌ (digit (n % 10)) after) in
    if ltb n 10 then String.◌∷◌ (digit n) after else longer

unfoldable pub itoa : ℤ → String
unfolding decimal
itoa (pos n) = decimal n n ""
itoa (negsuc n) = String.◌++◌ "-" (decimal n (n + 1) "")

-- Whether a number is a Unicode scalar value, by its three comparisons.
abbrev BothLess : Ordering → Ordering → Type 0
BothLess Ordering.lt o = IsLt o
BothLess Ordering.eq o = ⊥
BothLess Ordering.gt o = ⊥

abbrev Scalar : Ordering → Ordering → Ordering → Type 0
Scalar Ordering.lt o p = Unit
Scalar Ordering.eq o p = BothLess o p
Scalar Ordering.gt o p = BothLess o p

abbrev both_less? : (o p : Ordering) → Option (BothLess o p)
both_less? Ordering.lt Ordering.lt = some tt
both_less? Ordering.lt Ordering.eq = none
both_less? Ordering.lt Ordering.gt = none
both_less? Ordering.eq p = none
both_less? Ordering.gt p = none

abbrev scalar? : (o p q : Ordering) → Option (Scalar o p q)
scalar? Ordering.lt p q = some tt
scalar? Ordering.eq p q = both_less? p q
scalar? Ordering.gt p q = both_less? p q

-- string(rune(n)): the character of that number, or U+FFFD.
unfoldable pub rune_text : ℤ → String
rune_text (negsuc n) = String.◌∷◌ (char 65533 tt) String.[]
rune_text (pos n) = elim (scalar? (compare n 55296) (compare 57343 n) (compare n 1114112)) [
  | none ↦ String.◌∷◌ (char 65533 tt) String.[]
  | some p ↦ String.◌∷◌ (char n p) String.[]
]
