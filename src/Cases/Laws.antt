-- ===== src/Cases/Laws.antt =====
-- What the tiles of the summary count, and what the filter shows.
use socblitz.Common.{
  ℕ, ◌+◌, String, Bool, true, false, ◌≡◌, refl, ◌≢◌, ◌⊎◌, List, [], ◌∷◌, ◌==◌, eq_iff, All, not,
  ◌&&◌, ◌||◌, filter, length, truthy, any, if◌then◌else◌, arith, Bool-cases, inl, inr,
}
use socblitz.Cases.{
  CaseRow, CasesPage, open_config, status_config, match_search, shown_cases, status_count,
  click_status, shown_status,
}

module _ (lower : String → String) where
  matching :
      (k : String) (rows : List CaseRow)
      → k ≢ ""
      → length (filter (λ c. match_search lower "" c && (not (truthy k) || c.status == k)) rows)
        ≡ status_count k rows
  unfolding match_search status_count
  matching k [] h = refl
  matching k (c ∷ rows) h = ground (arith, eq_iff k "", matching k rows h)

  -- A click on the tile of a status that is not chosen, with nothing in the search box, shows as many
  -- cases as the tile counts; a second click takes the filter away again.
  pub click_status-shown_cases :
      (k : String) (p : CasesPage) (rows : List CaseRow)
      → k ≢ ""
      → p.search ≡ ""
      → p.status_filt ≢ k
      → (length (shown_cases lower (click_status k p) rows) ≡ status_count k rows)
        × (click_status k (click_status k p) ≡ record p { status_filt = "" })
  unfolding shown_cases click_status
  click_status-shown_cases k p rows h s n = (
    (let e : (p.status_filt == k) ≡ false = ground (arith, eq_iff p.status_filt k) in
        rw (e, s) (matching k rows h)),
    ground (arith, eq_iff p.status_filt k, eq_iff k k),
  )

abbrev pub has_tile : CaseRow → Bool
has_tile c = any (λ s. s.key == c.status) status_config

abbrev one_if : Bool → ℕ
one_if b = if b then 1 else 0

status_count-cons :
    (k : String) (c : CaseRow) (rows : List CaseRow)
    → status_count k (c ∷ rows) ≡ one_if (c.status == k) + status_count k rows
unfolding status_count
status_count-cons k c rows = ground arith

tiles_of :
    (c : CaseRow)
    → one_if (c.status == "open")
        + one_if (c.status == "in_progress")
        + one_if (c.status == "resolved")
        + one_if (c.status == "closed")
      ≡ one_if (has_tile c)
tiles_of c = ground (
  arith,
  eq_iff c.status "open",
  eq_iff c.status "in_progress",
  eq_iff c.status "resolved",
  eq_iff c.status "closed",
  eq_iff "open" c.status,
  eq_iff "in_progress" c.status,
  eq_iff "resolved" c.status,
  eq_iff "closed" c.status,
  eq_iff "open" "in_progress",
  eq_iff "open" "resolved",
  eq_iff "open" "closed",
  eq_iff "in_progress" "resolved",
  eq_iff "in_progress" "closed",
  eq_iff "resolved" "closed",
)

with_tile-cons :
    (c : CaseRow) (rows : List CaseRow)
    → length (filter has_tile (c ∷ rows)) ≡ one_if (has_tile c) + length (filter has_tile rows)
with_tile-cons c rows = elim (Bool-cases (has_tile c)) [
  | inl e ↦ rw e (omega arith)
  | inr e ↦ rw e (omega arith)
]

status_count-tiles :
    (rows : List CaseRow)
    → status_count "open" rows
        + status_count "in_progress" rows
        + status_count "resolved" rows
        + status_count "closed" rows
      ≡ length (filter has_tile rows)
status_count-tiles [] = unfold status_count in refl
status_count-tiles (c ∷ rows) = omega (
  arith,
  tiles_of c,
  with_tile-cons c rows,
  status_count-cons "open" c rows,
  status_count-cons "in_progress" c rows,
  status_count-cons "resolved" c rows,
  status_count-cons "closed" c rows,
  status_count-tiles rows,
)

labelled : (c : CaseRow) → (has_tile c ≡ true) ⊎ (shown_status c.status ≡ open_config)
unfolding shown_status
labelled c = ground arith

All-labelled :
    (rows : List CaseRow)
    → All (λ c. (has_tile c ≡ true) ⊎ (shown_status c.status ≡ open_config)) rows
All-labelled [] = tt
All-labelled (c ∷ rows) = (labelled c, All-labelled rows)

-- The four tiles count together exactly the cases whose status is one of theirs, and the row of a case
-- of any other status is labelled "Open".
pub status_count-sum :
    (rows : List CaseRow)
    → (status_count "open" rows
          + status_count "in_progress" rows
          + status_count "resolved" rows
          + status_count "closed" rows
        ≡ length (filter has_tile rows))
      × All (λ c. (has_tile c ≡ true) ⊎ (shown_status c.status ≡ open_config)) rows
status_count-sum rows = (status_count-tiles rows, All-labelled rows)
