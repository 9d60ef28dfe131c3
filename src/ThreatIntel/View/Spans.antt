-- ===== src/ThreatIntel/View/Spans.antt =====
-- The first column of the table of sources: its cells span several rows.
use socblitz.Common.{
  Bool-cases, inl, inr, ℕ, suc, String, ◌≡◌, refl, ap, ◌∙◌, Option, none, some, List, [], ◌∷◌, ◌++◌,
  map, length,
}
use socblitz.Common.Json.{Json, Fields, get}
use socblitz.ThreatIntel.{rows, or_dash, entries, source_rows, truth}
use socblitz.ThreatIntel.View.{SourceRow, spanned, cells, source_table}

-- the cells of the first column, with the rows that they span
abbrev pub heads : List SourceRow → List (String × ℕ)
heads [] = []
heads (r ∷ rs) = elim r.name [ none ↦ heads rs | some h ↦ h ∷ heads rs ]

-- From a cell on, so many rows are left to its right; a row with a cell needs all rows before it to be spanned.
abbrev pub Tiles : ℕ → List SourceRow → Type 0
Tiles left [] = left ≡ 0
Tiles left (r ∷ rs) = elim r.name [
  | none ↦ (n : ℕ) × (left ≡ suc n) × Tiles n rs
  | some h ↦ (n : ℕ) × (left ≡ 0) × (h.1 ≡ suc n) × Tiles n rs
]

Tiles-map :
    (rs : List (String × Json)) (ts : List SourceRow)
    → Tiles 0 ts
    → Tiles (length rs) (map (cells none) rs ++ ts)
Tiles-map [] ts h = h
Tiles-map (r ∷ rs) ts h = (length rs, refl, Tiles-map rs ts h)

Tiles-spanned :
    (name : String) (rs : List (String × Json)) (ts : List SourceRow)
    → Tiles 0 ts
    → Tiles 0 (spanned name rs ++ ts)
Tiles-spanned name [] ts h = h
Tiles-spanned name (r ∷ rs) ts h = (length rs, refl, refl, Tiles-map rs ts h)

heads-map :
    (rs : List (String × Json)) (ts : List SourceRow) → heads (map (cells none) rs ++ ts) ≡ heads ts
heads-map [] ts = refl
heads-map (r ∷ rs) ts = heads-map rs ts

heads-or_dash :
    (name : String) (es : List (String × Json)) (ts : List SourceRow)
    → heads (spanned name (or_dash es) ++ ts) ≡ (name, length (or_dash es)) ∷ heads ts
heads-or_dash name [] ts = refl
heads-or_dash name (r ∷ rs) ts = ap (λ x. (name, suc (length rs)) ∷ x) (heads-map rs ts)

heads-source_rows :
    (name : String) (e : Option Json) (fs : Fields) (ts : List SourceRow)
    → heads (spanned name (source_rows e fs) ++ ts) ≡ (name, length (source_rows e fs)) ∷ heads ts
heads-source_rows name none fs ts = heads-or_dash name (entries fs) ts
heads-source_rows name (some j) fs ts = elim (Bool-cases (truth j)) [
  | inl e ↦ rw e refl
  | inr e ↦ rw e (heads-or_dash name (entries fs) ts)
]

-- Every source of the answer, one without a field or with an error included, has one cell in the first column,
-- in the order of the answer, over as many rows as it has; and the cells cover the column without a gap or
-- an overlap.
pub source_table-Tiles :
    (sources : List (String × Fields))
    → Tiles 0 (source_table sources)
      × (heads (source_table sources) ≡ map (λ s. (s.0, length (rows s.1))) sources)
unfolding source_table rows
source_table-Tiles [] = (refl, refl)
source_table-Tiles ((name, fs) ∷ rest) =
    let (t, h) = source_table-Tiles rest in
    (
      Tiles-spanned name (rows fs) (source_table rest) t,
      heads-source_rows name (get "error" fs) fs (source_table rest)
          ∙ ap (λ x. (name, length (rows fs)) ∷ x) h,
    )
