-- ===== src/Server/UpdateCase.antt =====
-- The update of a case on the server, `update_case` of backend/app/api/v1/router.py, for a case that exists and
-- that the user may see. The row is the object of its attributes; that the database refuses a value that
-- is none of an enumeration is left out.
pub mod Pages
use socblitz.Common.{
  ℕ, String, Bool, true, false, not, ◌&&◌, ◌||◌, ◌==◌, Option, none, some, List, [], ◌∷◌, ◌++◌, any,
  truthy, eqb, is_some, or_else, if◌then◌else◌,
}
use socblitz.Common.Json.{Json, Items, Fields, null, bool, num, str, arr, obj, nil, end, field, get}
use socblitz.Common.JsonEq.{Json-discrete}
use socblitz.Ui.{Part, say, value}
use socblitz.Server.{Answer, reply, raise}

-- `allowed`
abbrev pub allowed : List String
allowed =
    "title" ∷ "description" ∷ "status" ∷ "priority" ∷ "classification" ∷ "closure_note" ∷ "tags"
    ∷ "assigned_to" ∷ "tlp" ∷ "pap" ∷ "summary" ∷ []

-- `payload.get("status") in closing_status`
abbrev pub is_closing : Option Json → Bool
is_closing (some (str s)) = s == "resolved" || s == "closed"
is_closing _ = false

-- the truth of a value in Python, where a missing one is `None`
abbrev pub py_truth : Option Json → Bool
py_truth none = false
py_truth (some null) = false
py_truth (some (bool b)) = b
py_truth (some (num n)) = not (eqb n 0)
py_truth (some (str s)) = truthy s
py_truth (some (arr nil)) = false
py_truth (some (arr js)) = true
py_truth (some (obj end)) = false
py_truth (some (obj fs)) = true

-- `payload.get("classification", case.classification)`
abbrev pub final_classification : (row payload : Fields) → Option Json
final_classification row payload = elim (get "classification" payload) [
  | none ↦ get "classification" row
  | some j ↦ some j
]

-- the update is refused for want of a classification
unfoldable pub lacks_classification : (row payload : Fields) → Bool
lacks_classification row payload =
    is_closing (get "status" payload) && not (py_truth (final_classification row payload))

-- `setattr(case, k, v)`
unfoldable pub set_attr : String → Json → Fields → Fields
set_attr key v end = field key v end
set_attr key v (field k w rest) =
    let set_rest = set_attr key v rest in if k == key then field k v rest else field k w set_rest

-- `old_val != v`
abbrev differs : Option Json → Json → Bool
differs none null = false
differs none v = true
differs (some old) v = elim (Json-discrete old v) [ yes e ↦ false | no n ↦ true ]

abbrev old_value : Option Json → Part
old_value none = say "None"
old_value (some old) = value old

-- the entry of the timeline for a changed attribute
unfoldable pub change_of : (k : String) → (old : Option Json) → (v : Json) → List (List Part)
change_of k old v =
    if not (differs old v)
    then []
    else if k == "status"
    then (say "Status changed from " ∷ old_value old ∷ say " to " ∷ value v ∷ []) ∷ []
    else if k == "priority"
    then (say "Priority changed from " ∷ old_value old ∷ say " to " ∷ value v ∷ []) ∷ []
    else if k == "assigned_to"
    then (say "Assignee changed" ∷ []) ∷ []
    else if k == "classification"
    then (say "Classified as " ∷ value v ∷ []) ∷ []
    else []

-- the row and the entries so far
pub record Updated : Type 0 where
  pub row : Fields
  pub changes : List (List Part)

-- the loop over `payload.items()`
unfoldable pub update_items : Updated → Fields → Updated
unfolding set_attr change_of
update_items u end = u
update_items u (field k v rest) =
    update_items
      (if any (λ a. a == k) allowed
        then record { row = set_attr k v u.row; changes = u.changes ++ change_of k (get k u.row) v }
        else u)
      rest

-- `update_case`: the row, the entries of the timeline, and whether `closed_at` is set
unfoldable pub update_case : (row payload : Fields) → Answer (Updated × Bool)
unfolding lacks_classification update_items
update_case row payload =
    if lacks_classification row payload
    then raise 400
        "A classification (true positive / false positive / etc.) is required to resolve or close a case"
    else reply (
      update_items (record { row = row; changes = [] }) payload,
      is_closing (get "status" payload),
    )
