-- ===== src/Common/Text.antt =====
-- `trim`, `includes`, `startsWith`: the operations on texts that the pages use.
use Prim.Native.Nat.{ℕ}
use Prim.Native.Char.{code}
use Prim.Native.String.{String}
use mathlib.Core.Bool.{Bool, true, false, not, ◌&&◌, ◌||◌}
use mathlib.Core.List.{List, [], ◌∷◌}
use socblitz.Common.Tests.{eqb, leb, if◌then◌else◌}
use text.Mathlib.Text.{◌==◌}

-- The white space and line ends of ECMAScript, which `trim` strips.
abbrev pub is_space : ℕ → Bool
is_space c =
    leb 9 c && leb c 13
    || eqb c 32
    || eqb c 160
    || eqb c 0x1680
    || leb 0x2000 c && leb c 0x200a
    || eqb c 0x2028
    || eqb c 0x2029
    || eqb c 0x202f
    || eqb c 0x205f
    || eqb c 0x3000
    || eqb c 0xfeff

-- the code points of a text
abbrev pub codes : String → List ℕ
codes String.[] = []
codes (String.◌∷◌ c s) = code c ∷ codes s

-- `s.trimStart()`
unfoldable pub trim_start : String → String
trim_start String.[] = ""
trim_start (String.◌∷◌ c s) = if is_space (code c) then trim_start s else String.◌∷◌ c s

-- `s.trimEnd()`
unfoldable pub trim_end : String → String
trim_end String.[] = ""
trim_end (String.◌∷◌ c s) =
    let rest = trim_end s in if is_space (code c) && rest == "" then "" else String.◌∷◌ c rest

-- `s.trim()`
unfoldable pub trim : String → String
unfolding trim_start trim_end
trim s = trim_end (trim_start s)

-- `xs` starts with `ys`
abbrev pub has_prefix : List ℕ → List ℕ → Bool
has_prefix xs [] = true
has_prefix [] (y ∷ ys) = false
has_prefix (x ∷ xs) (y ∷ ys) = eqb x y && has_prefix xs ys

-- `ys` occurs in `xs`
abbrev pub occurs : List ℕ → List ℕ → Bool
occurs [] ys = has_prefix [] ys
occurs (x ∷ xs) ys = has_prefix (x ∷ xs) ys || occurs xs ys

-- `s.includes(t)`
abbrev pub includes : String → String → Bool
includes s t = occurs (codes s) (codes t)

-- `s.startsWith(t)`
abbrev pub starts_with : String → String → Bool
starts_with s t = has_prefix (codes s) (codes t)

-- no character of the text has the code
abbrev pub is_free : ℕ → String → Bool
is_free n String.[] = true
is_free n (String.◌∷◌ c s) = not (eqb (code c) n) && is_free n s
