-- ===== src/Ui/Table.antt =====
-- What the tables of the pages have in common: the lines of the body, and a value or a dash.
use socblitz.Common.{
  String, Bool, true, false, not, ◌&&◌, ◌≢◌, Option, none, some, List, [], ◌∷◌, ◌++◌, map, length,
  eqb, or_text, if◌then◌else◌, arith,
}
use socblitz.Ui.{Detail, Part, detail_or}

-- a line of the body: one cell over all columns with a message, or a row
pub data Line {ℓ} (A : Type ℓ) : Type ℓ where
  message : String → Line A
  row : A → Line A

-- `{isLoading && …}`, `{!isLoading && xs.length === 0 && …}` and `{xs.map(…)}`
abbrev pub lines {ℓ} :
    {A : Type ℓ} → (is_loading : Bool) → (loading empty : String) → List A → List (Line A)
lines is_loading loading empty xs =
    (if is_loading then message loading ∷ [] else [])
    ++ ((if not is_loading && eqb (length xs) 0 then message empty ∷ [] else []) ++ map row xs)

-- `value || '—'`
abbrev pub or_dash : String → String
or_dash s = or_text s "—"

-- `isError ? (error?.response?.data?.detail || 'Query failed') : null`
unfoldable pub query_error : (is_error : Bool) → Detail → Option (List Part)
query_error is_error d = if is_error then some (detail_or d "Query failed") else none

-- The body of a table is never blank: it shows a message exactly while it has no row or is loading.
pub lines-shown {ℓ} :
    {A : Type ℓ} (is_loading : Bool) (loading empty : String) (xs : List A)
    → lines is_loading loading empty xs ≢ []
lines-shown true loading empty xs e = cc e
lines-shown false loading empty [] e = cc e
lines-shown false loading empty (x ∷ xs) e = ground (arith, e)
