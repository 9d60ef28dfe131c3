-- ===== src/Session/Urls.antt =====
-- When the fixed text "/…" cannot occur in a URL, whatever values without a slash are put in.
use socblitz.Common.{
  ℕ, ◌≡◌, refl, Bool, true, false, not, ◌&&◌, ◌||◌, List, [], ◌∷◌, ◌++◌, eqb, codes, has_prefix,
  occurs, arith,
}
use socblitz.Api.{Piece, lit, hole, render}

abbrev slash_free : List ℕ → Bool
slash_free [] = true
slash_free (c ∷ cs) = not (eqb c b'/') && slash_free cs

-- No value that is put in holds a slash.
abbrev pub IsPlainUrl : List Piece → Type 0
IsPlainUrl [] = Unit
IsPlainUrl (lit s ∷ t) = IsPlainUrl t
IsPlainUrl (hole s ∷ t) = (slash_free (codes s) ≡ true) × IsPlainUrl t

-- `k` holds of `ps` or of what is left when a value takes a part without a slash from its front.
any_drop : (List ℕ → Bool) → List ℕ → Bool
any_drop k [] = k []
any_drop k (p ∷ ps) = k (p ∷ ps) || (not (eqb p b'/') && any_drop k ps)

-- the fixed text `cs`, then `k`
after : List ℕ → (List ℕ → Bool) → List ℕ → Bool
after [] k ps = k ps
after (c ∷ cs) k [] = true
after (c ∷ cs) k (p ∷ ps) = eqb c p && after cs k ps

-- Some values may make the URL start with `ps`.
may_start : List Piece → List ℕ → Bool
unfolding any_drop after
may_start [] ps = has_prefix [] ps
may_start (lit s ∷ t) ps = after (codes s) (may_start t) ps
may_start (hole s ∷ t) ps = any_drop (may_start t) ps

-- Some values may make `ps` occur from within the fixed text `cs` on.
within : List ℕ → (List ℕ → Bool) → List ℕ → Bool
unfolding after
within [] k ps = false
within (c ∷ cs) k ps = after (c ∷ cs) k ps || within cs k ps

unfoldable pub may_occur : List Piece → List ℕ → Bool
unfolding may_start within
may_occur [] ps = has_prefix [] ps
may_occur (lit s ∷ t) ps = within (codes s) (may_start t) ps || may_occur t ps
may_occur (hole s ∷ t) ps = may_occur t ps

module _ (k : List ℕ → Bool) (r : List ℕ)
    (sound : (ps : List ℕ) → has_prefix r ps ≡ true → k ps ≡ true) where
  after_sound : (cs ps : List ℕ) → has_prefix (cs ++ r) ps ≡ true → after cs k ps ≡ true
  unfolding after
  after_sound [] ps h = sound ps h
  after_sound (c ∷ cs) [] h = refl
  after_sound (c ∷ cs) (p ∷ ps) h = ground (arith, after_sound cs ps)

  any_drop_here : (ps : List ℕ) → k ps ≡ true → any_drop k ps ≡ true
  unfolding any_drop
  any_drop_here [] h = h
  any_drop_here (p ∷ ps) h = rw h refl

  any_drop_sound :
      (cs ps : List ℕ)
      → slash_free cs ≡ true
      → has_prefix (cs ++ r) ps ≡ true
      → any_drop k ps ≡ true
  unfolding any_drop
  any_drop_sound [] ps f h = any_drop_here ps (sound ps h)
  any_drop_sound (c ∷ cs) [] f h = sound [] refl
  any_drop_sound (c ∷ cs) (p ∷ ps) f h = ground (arith, any_drop_sound cs ps)

  within_sound :
      (cs ps : List ℕ) → occurs (cs ++ r) ps ≡ true → within cs k ps || occurs r ps ≡ true
  unfolding within
  within_sound [] ps h = h
  within_sound (c ∷ cs) ps h = ground (arith, after_sound (c ∷ cs) ps, within_sound cs ps)

may_start_sound :
    (t : List Piece) (ps : List ℕ)
    → IsPlainUrl t
    → has_prefix (render t) ps ≡ true
    → may_start t ps ≡ true
unfolding may_start
may_start_sound [] ps f h = h
may_start_sound (lit s ∷ t) ps f h =
    after_sound (may_start t) (render t) (λ qs. may_start_sound t qs f) (codes s) ps h
may_start_sound (hole s ∷ t) ps f h =
    any_drop_sound (may_start t) (render t) (λ qs. may_start_sound t qs f.1) (codes s) ps f.0 h

-- A text that begins with a slash does not begin within a value.
not_in_value :
    (cs r ps : List ℕ)
    → slash_free cs ≡ true
    → occurs (cs ++ r) (b'/' ∷ ps) ≡ true
    → occurs r (b'/' ∷ ps) ≡ true
not_in_value [] r ps f h = h
not_in_value (c ∷ cs) r ps f h = ground (arith, not_in_value cs r ps)

pub may_occur_sound :
    (t : List Piece) (ps : List ℕ)
    → IsPlainUrl t
    → occurs (render t) (b'/' ∷ ps) ≡ true
    → may_occur t (b'/' ∷ ps) ≡ true
unfolding may_occur
may_occur_sound [] ps f h = h
may_occur_sound (lit s ∷ t) ps f h = ground (
  arith,
  within_sound (may_start t) (render t) (λ qs. may_start_sound t qs f) (codes s) (b'/' ∷ ps) h,
  may_occur_sound t ps f,
)
may_occur_sound (hole s ∷ t) ps f h =
    may_occur_sound t ps f.1 (not_in_value (codes s) (render t) ps f.0 h)
