-- ===== src/Base/Text.antt =====
-- Text as its bytes.
use Prim.Native.Nat.{ℕ}
use Prim.Native.Char.{code}
use Prim.Native.String.{String}
use mathlib.Core.Path.{◌≡◌, refl}
use mathlib.Core.List.{List, [], ◌∷◌, ◌++◌}
use native.Mathlib.Omega.{arith}
use mathlib.Core.Bool.{Bool, true, false, ◌&&◌}
use mathlib.Core.Option.{Option, none, some}
use veloria.Base.Tests.{◌==◌, if◌then◌else◌}
use veloria.Base.Lists.{length, drop}

abbrev pub Bytes : Type 0
Bytes = List ℕ

-- The code points of a literal; these are its bytes when the text is ASCII.
abbrev pub codes : String → Bytes
codes String.[] = []
codes (String.◌∷◌ c s) = code c ∷ codes s

-- strings.HasPrefix(s, p)
unfoldable pub starts_with : Bytes → Bytes → Bool
starts_with [] s = true
starts_with (p ∷ ps) [] = false
starts_with (p ∷ ps) (b ∷ s) = p == b && starts_with ps s

-- strings.Cut(s, sep): what stands behind the first occurrence of `sep`, if there is one
unfoldable pub cut_after : Bytes → Bytes → Option Bytes
unfolding starts_with
cut_after sep [] = if starts_with sep [] then some [] else none
cut_after sep (b ∷ s) =
    if starts_with sep (b ∷ s) then some (drop (length sep) (b ∷ s)) else cut_after sep s

pub starts_with-append : (p s : Bytes) → starts_with p (p ++ s) ≡ true
unfolding starts_with
starts_with-append [] s = refl
starts_with-append (c ∷ p) s = ground (arith, starts_with-append p s)

pub starts_with_parts : (p s : Bytes) → starts_with p s ≡ true → s ≡ p ++ drop (length p) s
unfolding starts_with
starts_with_parts [] s h = refl
starts_with_parts (c ∷ p) [] h = cc
starts_with_parts (c ∷ p) (d ∷ s) h = ground (arith, starts_with_parts p s)
