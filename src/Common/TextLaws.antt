-- ===== src/Common/TextLaws.antt =====
-- Laws of `trim`.
use Prim.Native.Nat.{ℕ}
use Prim.Native.Char.{code}
use Prim.Native.String.{String}
use mathlib.Core.Path.{◌≡◌, refl, ap, sym, ◌∙◌}
use mathlib.Core.Logic.{inl, inr}
use mathlib.Core.List.{List, [], ◌∷◌}
use mathlib.Core.Bool.{Bool, true, not, ◌&&◌}
use native.Mathlib.Omega.{arith}
use text.Mathlib.Text.{◌==◌}
use socblitz.Common.Tests.{Bool-cases, eqb, eq_of_==, if◌then◌else◌}
use socblitz.Common.Text.{is_space, is_free, trim_start, trim_end, trim}

-- the text does not begin with white space
abbrev starts_clear : String → Bool
starts_clear String.[] = true
starts_clear (String.◌∷◌ c s) = not (is_space (code c))

trim_start-clear : (s : String) → starts_clear (trim_start s) ≡ true
unfolding trim_start
trim_start-clear String.[] = refl
trim_start-clear (String.◌∷◌ c s) = elim (Bool-cases (is_space (code c))) [
  | inl e ↦ rw e (trim_start-clear s)
  | inr e ↦ rw (e, e) refl
]

trim_start-idle : (s : String) → starts_clear s ≡ true → trim_start s ≡ s
unfolding trim_start
trim_start-idle String.[] h = refl
trim_start-idle (String.◌∷◌ c s) h = ground arith

trim_end-clear : (s : String) → starts_clear s ≡ true → starts_clear (trim_end s) ≡ true
unfolding trim_end
trim_end-clear String.[] h = refl
trim_end-clear (String.◌∷◌ c s) h = ground arith

trim_end-idle : (s : String) → trim_end (trim_end s) ≡ trim_end s
unfolding trim_end
trim_end-idle String.[] = refl
trim_end-idle (String.◌∷◌ c s) = elim (Bool-cases (is_space (code c) && trim_end s == "")) [
  | inl e ↦ rw e refl
  | inr e ↦ rw (e, trim_end-idle s, e) refl
]

pub trim-idle : (s : String) → trim (trim s) ≡ trim s
unfolding trim
trim-idle s =
    ap trim_end (
      trim_start-idle (trim_end (trim_start s))
        (trim_end-clear (trim_start s) (trim_start-clear s)))
    ∙ trim_end-idle (trim_start s)

both : (a b : Bool) → a && b ≡ true → (a ≡ true) × (b ≡ true)
both a b h = ground arith

module _ (n : ℕ) where
  trim_start-free : (s : String) → is_free n s ≡ true → is_free n (trim_start s) ≡ true
  unfolding trim_start
  trim_start-free String.[] h = refl
  trim_start-free (String.◌∷◌ c s) h = ground (arith, trim_start-free s)

  trim_end-free : (s : String) → is_free n s ≡ true → is_free n (trim_end s) ≡ true
  unfolding trim_end
  trim_end-free String.[] h = refl
  trim_end-free (String.◌∷◌ c s) h =
      let parts = both (not (eqb (code c) n)) (is_free n s) h in
      elim (Bool-cases (is_space (code c) && trim_end s == "")) [
        | inl e ↦ rw e refl
        | inr e ↦ rw (e, parts.0, trim_end-free s parts.1) refl
      ]

  pub trim-free : (s : String) → is_free n s ≡ true → is_free n (trim s) ≡ true
  unfolding trim
  trim-free s h = trim_end-free (trim_start s) (trim_start-free s h)

-- the characters of a text but for white space
abbrev pub dense : String → List ℕ
dense String.[] = []
dense (String.◌∷◌ c s) = if is_space (code c) then dense s else code c ∷ dense s

trim_start-dense : (s : String) → dense (trim_start s) ≡ dense s
unfolding trim_start
trim_start-dense String.[] = refl
trim_start-dense (String.◌∷◌ c s) = ground (arith, trim_start-dense s)

pub dense-empty : (s : String) → s == "" ≡ true → dense s ≡ []
dense-empty s e = ap dense (eq_of_== s "" e)

trim_end-dense : (s : String) → dense (trim_end s) ≡ dense s
unfolding trim_end
trim_end-dense String.[] = refl
trim_end-dense (String.◌∷◌ c s) = elim (Bool-cases (is_space (code c) && trim_end s == "")) [
  | inl e ↦
      let (p, q) = both (is_space (code c)) (trim_end s == "") e in
      rw (e, p) (sym (dense-empty (trim_end s) q) ∙ trim_end-dense s)
  | inr e ↦ rw (e, trim_end-dense s) refl
]

pub trim-dense : (s : String) → dense (trim s) ≡ dense s
unfolding trim
trim-dense s = trim_end-dense (trim_start s) ∙ trim_start-dense s
