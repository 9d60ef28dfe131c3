-- ===== src/Engine/Clean.antt =====
-- The lists that the engine page reads out of texts: groups and techniques parted by commas (`list`
-- of `RuleGenTab`), log lines parted by line ends (`YaraLTab`).
use Prim.Native.Char.{Char, code}
use socblitz.Common.{ℕ, String, List, [], ◌∷◌, map, filter, eqb, truthy, trim, if◌then◌else◌}

-- a character put before the first part
abbrev pub push : Char → List String → List String
push c [] = String.◌∷◌ c String.[] ∷ []
push c (s ∷ ss) = String.◌∷◌ c s ∷ ss

-- `s.split(separator)` for a separator of one character
unfoldable pub split : ℕ → String → List String
split sep String.[] = "" ∷ []
split sep (String.◌∷◌ c s) =
    let rest = split sep s in if eqb (code c) sep then "" ∷ rest else push c rest

-- `s.split(separator).map((x) => x.trim()).filter(Boolean)`
unfoldable pub clean : ℕ → String → List String
unfolding split
clean sep s = filter truthy (map trim (split sep s))

-- the separator of `list`
abbrev pub comma : ℕ
comma = 44

-- the separator of the sample lines
abbrev pub line_end : ℕ
line_end = 10

-- a text, the separator and another text
abbrev pub glue : String → Char → String → String
glue String.[] sep t = String.◌∷◌ sep t
glue (String.◌∷◌ c s) sep t = String.◌∷◌ c (glue s sep t)

-- `parts.join(separator)` for a separator of one character
abbrev pub join : Char → List String → String
join sep [] = ""
join sep (s ∷ []) = s
join sep (s ∷ t ∷ rest) = glue s sep (join sep (t ∷ rest))
