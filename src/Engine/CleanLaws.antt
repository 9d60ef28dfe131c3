-- ===== src/Engine/CleanLaws.antt =====
-- The lists that are read out of texts.
use Prim.Native.Char.{Char, code}
use socblitz.Common.{
  ℕ, String, true, false, ◌≡◌, refl, ◌∙◌, inl, inr, List, [], ◌∷◌, map, filter, All, eqb, truthy,
  trim, is_space, ◌++◌, ◌||◌, if◌then◌else◌, is_free, Bool-cases, arith,
}
use socblitz.Common.TextLaws.{dense, dense-empty, trim-dense, trim-idle, trim-free}
use socblitz.Engine.Clean.{push, split, clean}

-- A part of a list as it is read: not empty, trimmed, and without the separator.
abbrev pub IsPart : ℕ → String → Type 0
IsPart sep s = (truthy s ≡ true) × (trim s ≡ s) × (is_free sep s ≡ true)

module _ (sep : ℕ) where
  push-free :
      (c : Char) (ss : List String)
      → eqb (code c) sep ≡ false
      → All (λ s. is_free sep s ≡ true) ss
      → All (λ s. is_free sep s ≡ true) (push c ss)
  push-free c [] e h = (ground arith, tt)
  push-free c (s ∷ ss) e (h, k) = (ground arith, k)

  split-free : (s : String) → All (λ t. is_free sep t ≡ true) (split sep s)
  unfolding split
  split-free String.[] = (refl, tt)
  split-free (String.◌∷◌ c s) = elim (Bool-cases (eqb (code c) sep)) [
    | inl e ↦ rw e (refl, split-free s)
    | inr e ↦ rw e (push-free c (split sep s) e (split-free s))
  ]

  kept :
      (ss : List String)
      → All (λ t. is_free sep t ≡ true) ss
      → All (IsPart sep) (filter truthy (map trim ss))
  kept [] h = tt
  kept (s ∷ ss) (h, k) = elim (Bool-cases (truthy (trim s))) [
    | inl e ↦ rw e ((e, trim-idle s, trim-free sep s h), kept ss k)
    | inr e ↦ rw e (kept ss k)
  ]

-- the characters of all parts but for white space, in their order
abbrev pub letters_of : List String → List ℕ
letters_of [] = []
letters_of (s ∷ ss) = dense s ++ letters_of ss

-- the characters of a text but for white space and the separator
abbrev pub letters : ℕ → String → List ℕ
letters sep String.[] = []
letters sep (String.◌∷◌ c s) =
    if eqb (code c) sep || is_space (code c) then letters sep s else code c ∷ letters sep s

push-letters_of :
    (c : Char) (ss : List String)
    → letters_of (push c ss) ≡ dense (String.◌∷◌ c String.[]) ++ letters_of ss
push-letters_of c [] = ground arith
push-letters_of c (s ∷ ss) = ground arith

split-letters_of : (sep : ℕ) (s : String) → letters_of (split sep s) ≡ letters sep s
unfolding split
split-letters_of sep String.[] = refl
split-letters_of sep (String.◌∷◌ c s) =
    ground (arith, split-letters_of sep s, push-letters_of c (split sep s))

kept-letters_of : (ss : List String) → letters_of (filter truthy (map trim ss)) ≡ letters_of ss
kept-letters_of [] = refl
kept-letters_of (s ∷ ss) = ground (arith, kept-letters_of ss, trim-dense s, dense-empty (trim s))

-- The list that is read out of a text, whatever the text is: each part is not empty, has no white space around it
-- and does not contain the separator, and the parts hold, in their order, all characters of the text but the
-- separators and white space.
pub clean-letters_of :
    (sep : ℕ) (s : String)
    → All (IsPart sep) (clean sep s) × (letters_of (clean sep s) ≡ letters sep s)
unfolding clean
clean-letters_of sep s = (
  kept sep (split sep s) (split-free sep s),
  kept-letters_of (split sep s) ∙ split-letters_of sep s,
)
