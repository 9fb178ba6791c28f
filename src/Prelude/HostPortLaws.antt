-- ===== src/Prelude/HostPortLaws.antt =====
-- A host and a port that are joined are split again.
use Prim.Native.Nat.{ℕ}
use Prim.Native.Char.{Char, code}
use Prim.Native.String.{String}
use Prim.Native.String.append
use mathlib.Core.Path.{◌≡◌, refl, sym, ap, ◌∙◌}
use mathlib.Core.Logic.{inl, inr}
use mathlib.Core.Bool.{true, false}
use mathlib.Core.Option.{none, some}
use native.Mathlib.Omega.{arith}
use text.Mathlib.TextPositions.{eq_refl}
use nats_mq.Prelude.Tests.{if◌then◌else◌, Bool-cases}
use nats_mq.Prelude.Text.{◌<>◌}
use nats_mq.Prelude.HostPort.{
  has_char, cut_first, cut_last, split_bracketed, split_at, split_host_port, join_host_port,
}

pub nil-<> : (t : String) → "" <> t ≡ t
nil-<> t = append.nil t

cons-<> : (c : Char) (s t : String) → String.◌∷◌ c s <> t ≡ String.◌∷◌ c (s <> t)
cons-<> c s t = append.cons c s t

has_char-<> :
    (d : ℕ) (s t : String) → has_char d (s <> t) ≡ (if has_char d s then true else has_char d t)
unfolding has_char
has_char-<> d String.[] t = rw nil-<> refl
has_char-<> d (String.◌∷◌ c s) t = rw cons-<> (ground (arith, has_char-<> d s t))

<>-assoc : (s t u : String) → (s <> t) <> u ≡ s <> (t <> u)
<>-assoc String.[] t u = rw (nil-<>, nil-<>) refl
<>-assoc (String.◌∷◌ c s) t u = rw (cons-<>, cons-<>, cons-<>, <>-assoc s t u) refl

cut_last-none : (d : ℕ) (t : String) → has_char d t ≡ false → cut_last d t ≡ none
unfolding cut_last has_char
cut_last-none d String.[] h = refl
cut_last-none d (String.◌∷◌ c t) h = ground (arith, cut_last-none d t)

cut_last-<> :
    (d : ℕ) (s : String) (c : Char) (t : String)
    → code c ≡ d
    → has_char d t ≡ false
    → cut_last d (s <> String.◌∷◌ c t) ≡ some (s, t)
unfolding cut_last
cut_last-<> d String.[] c t e h = rw nil-<> (ground (arith, cut_last-none d t h))
cut_last-<> d (String.◌∷◌ x s) c t e h = rw (cons-<>, cut_last, cut_last-<> d s c t e h) refl

cut_first-<> :
    (d : ℕ) (s : String) (c : Char) (t : String)
    → code c ≡ d
    → has_char d s ≡ false
    → cut_first d (s <> String.◌∷◌ c t) ≡ some (s, t)
unfolding cut_first has_char
cut_first-<> d String.[] c t e h = rw nil-<> (ground arith)
cut_first-<> d (String.◌∷◌ x s) c t e h = rw cons-<> (ground (arith, cut_first-<> d s c t e))

-- A text without brackets.
pub record IsUnbracketed (s : String) : Type 0 where
  pub no_open : has_char b'[' s ≡ false
  pub no_close : has_char b']' s ≡ false

-- The text that JoinHostPort makes of a host with a colon, by its characters.
abbrev bracketed : String → String → String
bracketed host port = host <> String.◌∷◌ "]" (String.◌∷◌ ":" port)

colon-<> : (port : String) → ":" <> port ≡ String.◌∷◌ ":" port
colon-<> port = cons-<> ":" "" port ∙ ap (String.◌∷◌ ":") (nil-<> port)

close-<> : (port : String) → "]:" <> port ≡ String.◌∷◌ "]" (String.◌∷◌ ":" port)
close-<> port = cons-<> "]" ":" port ∙ ap (String.◌∷◌ "]") (colon-<> port)

open-<> : (s : String) → "[" <> s ≡ String.◌∷◌ "[" s
open-<> s = cons-<> "[" "" s ∙ ap (String.◌∷◌ "[") (nil-<> s)

split_bracketed-<> :
    (host port : String)
    → IsUnbracketed host
    → IsUnbracketed port
    → split_bracketed (bracketed host port) port ≡ some (host, port)
unfolding split_bracketed has_char
split_bracketed-<> host port h p =
    rw
      (
        split_bracketed,
        cut_first-<> b']' host "]" (String.◌∷◌ ":" port) refl h.no_close,
        colon-<>,
        eq_refl,
      )
      (ground (
        arith,
        has_char-<> b'[' host (String.◌∷◌ "]" (String.◌∷◌ ":" port)),
        h.no_open,
        p.no_open,
        p.no_close,
      ))

join_bracketed :
    (host port : String)
    → has_char b':' host ≡ true
    → join_host_port host port ≡ String.◌∷◌ "[" (bracketed host port)
unfolding join_host_port
join_bracketed host port h = rw (h, open-<>, close-<>) refl

join_plain :
    (host port : String)
    → has_char b':' host ≡ false
    → join_host_port host port ≡ host <> String.◌∷◌ ":" port
unfolding join_host_port
join_plain host port h = rw (h, colon-<>) refl

cut_last-bracketed :
    (host port : String)
    → has_char b':' port ≡ false
    → cut_last b':' (String.◌∷◌ "[" (bracketed host port))
      ≡ some (String.◌∷◌ "[" (host <> "]"), port)
cut_last-bracketed host port h =
    let close : String = "]" in
    let e : host <> String.◌∷◌ "]" (String.◌∷◌ ":" port) ≡ (host <> close) <> String.◌∷◌ ":" port =
      sym (
        <>-assoc host close (String.◌∷◌ ":" port)
        ∙ ap (λ t. host <> t)
            (cons-<> "]" "" (String.◌∷◌ ":" port) ∙ ap (String.◌∷◌ "]") (nil-<> _))) in
    rw e (unfold cut_last in rw (cut_last-<> b':' (host <> close) ":" port refl h, cut_last) refl)

split_plain :
    (host port : String)
    → IsUnbracketed host
    → IsUnbracketed port
    → has_char b':' host ≡ false
    → split_at (host <> String.◌∷◌ ":" port) host port ≡ some (host, port)
unfolding split_at has_char
split_plain String.[] port h p colon = rw nil-<> (ground arith)
split_plain (String.◌∷◌ c s) port h p colon = rw cons-<> (
    ground
      (arith, has_char-<> b'[' s (String.◌∷◌ ":" port), has_char-<> b']' s (String.◌∷◌ ":" port)))

split_host_port_at :
    (s before port : String)
    → cut_last b':' s ≡ some (before, port)
    → split_host_port s ≡ split_at s before port
unfolding split_host_port
split_host_port_at s before port e = rw (e, split_host_port) refl

-- A host without brackets, with a colon or not, and a port without brackets and colons: the text that
-- JoinHostPort makes of them is split into them by SplitHostPort.
pub split_host_port-join_host_port :
    (host port : String)
    → IsUnbracketed host
    → IsUnbracketed port
    → has_char b':' port ≡ false
    → split_host_port (join_host_port host port) ≡ some (host, port)
split_host_port-join_host_port host port h p colon = elim (Bool-cases (has_char b':' host)) [
  | inl yes_colon ↦
      ap split_host_port (join_bracketed host port yes_colon)
      ∙ split_host_port_at _ _ _ (cut_last-bracketed host port colon)
      ∙ unfold split_at in split_bracketed-<> host port h p
  | inr no_colon ↦
      ap split_host_port (join_plain host port no_colon)
      ∙ split_host_port_at _ _ _ (cut_last-<> b':' host ":" port refl colon)
      ∙ split_plain host port h p no_colon
]
