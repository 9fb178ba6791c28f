-- ===== src/Prelude/HostPort.antt =====
-- Go's net.SplitHostPort and net.JoinHostPort.
use Prim.Native.Char.{Char, code}
use Prim.Native.String.{String}
use Prim.Native.Nat.{ℕ}
use mathlib.Core.Bool.{Bool, true, false, ◌||◌}
use mathlib.Core.Option.{Option, none, some}
use text.Mathlib.Text.{◌==◌ as str_eq}
use nats_mq.Prelude.Tests.{◌==◌, if◌then◌else◌}
use nats_mq.Prelude.Text.{◌<>◌}

-- strings.IndexByte(s, d) >= 0
unfoldable pub has_char : ℕ → String → Bool
has_char d String.[] = false
has_char d (String.◌∷◌ c s) = let later = has_char d s in if code c == d then true else later

abbrev pub prepend : Char → Option (String × String) → Option (String × String)
prepend c none = none
prepend c (some (b, a)) = some (String.◌∷◌ c b, a)

-- The text before and after the first `d`, and the last.
unfoldable pub cut_first : ℕ → String → Option (String × String)
cut_first d String.[] = none
cut_first d (String.◌∷◌ c s) =
    let later = cut_first d s in if code c == d then some ("", s) else prepend c later

unfoldable pub cut_last : ℕ → String → Option (String × String)
cut_last d String.[] = none
cut_last d (String.◌∷◌ c s) = elim (cut_last d s) [
  | some (b, a) ↦ some (String.◌∷◌ c b, a)
  | none ↦ if code c == d then some ("", s) else none
]

-- After "[", with what stands after the last colon.
unfoldable pub split_bracketed : String → String → Option (String × String)
unfolding cut_first has_char
split_bracketed s port = elim (cut_first b']' s) [
  | none ↦ none
  | some (host, rest) ↦
      if str_eq rest (":" <> port)
      then (if has_char b'[' s || has_char b']' rest then none else some (host, port))
      else none
]

-- At the last colon: the whole text, and what stands before and after.
unfoldable pub split_at : String → String → String → Option (String × String)
unfolding split_bracketed has_char
split_at String.[] before port = none
split_at (String.◌∷◌ c s) before port =
    if code c == b'['
    then split_bracketed s port
    else if has_char b':' before || has_char b'[' (String.◌∷◌ c s) || has_char b']' (String.◌∷◌ c s)
    then none
    else some (before, port)

-- `none` is an error.
unfoldable pub split_host_port : String → Option (String × String)
unfolding cut_last split_at
split_host_port s = elim (cut_last b':' s) [
  | none ↦ none
  | some (before, port) ↦ split_at s before port
]

unfoldable pub join_host_port : String → String → String
unfolding has_char
join_host_port host port =
    if has_char b':' host then "[" <> host <> "]:" <> port else host <> ":" <> port
