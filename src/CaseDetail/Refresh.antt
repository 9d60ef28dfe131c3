-- ===== src/CaseDetail/Refresh.antt =====
-- Which lists of the page the answers of the server invalidate.
use mathlib.Core.List.{Memᴰ}
use socblitz.Common.{ℕ, zero, suc, get_elem?, String, ◌≡◌, refl, Option, none, some, List, [], ◌∷◌}
use socblitz.Common.Json.{Json, str}
use socblitz.CaseDetail.Queries.{queries, invalidated, keys}
use socblitz.CaseDetail.Observables
use socblitz.CaseDetail.Observables.{Observables, added, edited, removed}
use socblitz.CaseDetail.Register
use socblitz.CaseDetail.Register.{
  Register, asset_created, asset_updated, asset_deleted, evidence_created, evidence_updated,
  evidence_deleted,
}
use socblitz.CaseDetail.Writing
use socblitz.CaseDetail.Writing.{
  Writing, note_created, note_updated, note_deleted, comment_added, comment_updated,
}

-- The list that an answer of the server has changed.
abbrev pub observables_list : Observables.Event → Option String
observables_list added = some "case-observables"
observables_list edited = some "case-observables"
observables_list removed = some "case-observables"
observables_list _ = none

abbrev pub register_list : Register.Event → Option String
register_list asset_created = some "case-assets"
register_list asset_updated = some "case-assets"
register_list asset_deleted = some "case-assets"
register_list evidence_created = some "case-evidence"
register_list evidence_updated = some "case-evidence"
register_list evidence_deleted = some "case-evidence"
register_list _ = none

abbrev pub writing_list : Writing.Event → Option String
writing_list note_created = some "case-notes"
writing_list note_updated = some "case-notes"
writing_list note_deleted = some "case-notes"
writing_list comment_added = some "case-comments"
writing_list comment_updated = some "case-comments"
writing_list _ = none

-- The key of the list, if there is one, is invalidated, and the page has a query with that key.
abbrev pub Refreshes : String → Option String → List (List Json) → Type 0
Refreshes id none ks = Unit
Refreshes id (some name) ks =
    Memᴰ (str name ∷ str id ∷ []) ks × Memᴰ (str name ∷ str id ∷ []) (keys (queries id))

Memᴰ_of_get_elem? :
    {k : List Json} (n : ℕ) (ks : List (List Json)) → get_elem? ks n ≡ some k → Memᴰ k ks
Memᴰ_of_get_elem? n [] e = cc
Memᴰ_of_get_elem? zero (k ∷ ks) e = Memᴰ.head (cc)
Memᴰ_of_get_elem? (suc n) (k ∷ ks) e = Memᴰ.tail (Memᴰ_of_get_elem? n ks e)

observables-Refreshes :
    (id : String) (o : Observables) (e : Observables.Event)
    → Refreshes id (observables_list e) (invalidated (Observables.act id o e).1)
unfolding Observables.act queries
observables-Refreshes id o added = (Memᴰ_of_get_elem? 0 _ refl, Memᴰ_of_get_elem? 3 _ refl)
observables-Refreshes id o edited = (Memᴰ_of_get_elem? 0 _ refl, Memᴰ_of_get_elem? 3 _ refl)
observables-Refreshes id o removed = (Memᴰ_of_get_elem? 0 _ refl, Memᴰ_of_get_elem? 3 _ refl)
observables-Refreshes id o _ = tt

register-Refreshes :
    (id : String) (r : Register) (e : Register.Event)
    → Refreshes id (register_list e) (invalidated (Register.act id r e).1)
unfolding Register.act queries
register-Refreshes id r asset_created = (Memᴰ_of_get_elem? 0 _ refl, Memᴰ_of_get_elem? 6 _ refl)
register-Refreshes id r asset_updated = (Memᴰ_of_get_elem? 0 _ refl, Memᴰ_of_get_elem? 6 _ refl)
register-Refreshes id r asset_deleted = (Memᴰ_of_get_elem? 0 _ refl, Memᴰ_of_get_elem? 6 _ refl)
register-Refreshes id r evidence_created = (Memᴰ_of_get_elem? 0 _ refl, Memᴰ_of_get_elem? 7 _ refl)
register-Refreshes id r evidence_updated = (Memᴰ_of_get_elem? 0 _ refl, Memᴰ_of_get_elem? 7 _ refl)
register-Refreshes id r evidence_deleted = (Memᴰ_of_get_elem? 0 _ refl, Memᴰ_of_get_elem? 7 _ refl)
register-Refreshes id r _ = tt

writing-Refreshes :
    (id : String) (w : Writing) (e : Writing.Event)
    → Refreshes id (writing_list e) (invalidated (Writing.act id w e).1)
unfolding Writing.act queries
writing-Refreshes id w note_created = (Memᴰ_of_get_elem? 0 _ refl, Memᴰ_of_get_elem? 8 _ refl)
writing-Refreshes id w note_updated = (Memᴰ_of_get_elem? 0 _ refl, Memᴰ_of_get_elem? 8 _ refl)
writing-Refreshes id w note_deleted = (Memᴰ_of_get_elem? 0 _ refl, Memᴰ_of_get_elem? 8 _ refl)
writing-Refreshes id w comment_added = (Memᴰ_of_get_elem? 0 _ refl, Memᴰ_of_get_elem? 5 _ refl)
writing-Refreshes id w comment_updated = (Memᴰ_of_get_elem? 0 _ refl, Memᴰ_of_get_elem? 5 _ refl)
writing-Refreshes id w _ = tt

-- Each answer of the server to a change of the observables, assets, evidence, notes or comments of
-- a case invalidates the list that it has changed, under the key by which the page asks for it.
pub answers-Refreshes :
    (id : String)
    → ((o : Observables) (e : Observables.Event)
        → Refreshes id (observables_list e) (invalidated (Observables.act id o e).1))
      × ((r : Register) (e : Register.Event)
          → Refreshes id (register_list e) (invalidated (Register.act id r e).1))
      × ((w : Writing) (e : Writing.Event)
          → Refreshes id (writing_list e) (invalidated (Writing.act id w e).1))
answers-Refreshes id = (observables-Refreshes id, register-Refreshes id, writing-Refreshes id)
