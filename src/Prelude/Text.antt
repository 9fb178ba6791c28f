-- ===== src/Prelude/Text.antt =====
-- Go's `+` and `!= ""` on texts.
use Prim.Native.String
use Prim.Native.String.{String}
use mathlib.Core.Bool.{Bool, not}
use text.Mathlib.Text.{◌==◌ as str_eq}

infixr 66 ◌<>◌
abbrev pub ◌<>◌ : String → String → String
s <> t = String.◌++◌ s t

abbrev pub is_set : String → Bool
is_set s = not (str_eq s "")
