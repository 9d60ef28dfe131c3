-- ===== src/Engine/Parsers/Deletion.antt =====
-- What the editor shows once a parser was deleted: the effect that selects the first parser runs on the
-- list that is still shown, and the new list arrives later.
use socblitz.Common.{
  String, true, false, ◌≡◌, ◌≢◌, Option, some, List, [], ◌∷◌, eq_iff, eq_refl, arith,
}
use socblitz.Engine.Parsers.{
  Parser, Parsers, new_key, is_admin, list_loaded, delete_reply, delete, delete_current, act,
  select_first, step, effects, run, current,
}
use socblitz.Engine.Parsers.Roles.{deletes}

-- the tab on which the first row of the list is edited, and no parser is being deleted
abbrev pub editing_first : Parsers → Parser → List Parser → Parsers
editing_first p q ps = record p { list = q ∷ ps; selected = some q.name; deleting = false }

-- An administrator deletes the first parser of the list, a custom one that has a name other than the
-- editor's own key; the server deletes it, and the list without it arrives. The call names that parser,
-- yet the editor still has it selected, with its text as the draft that Save would send.
pub run-delete :
    (role : Option String) (p : Parsers) (q : Parser) (ps : List Parser)
    → is_admin role ≡ true
    → q.source ≡ "custom"
    → q.name ≢ ""
    → q.name ≢ new_key
    → (deletes (
          effects role (editing_first p q ps) (delete true ∷ delete_reply "" ∷ list_loaded ps ∷ []))
        ≡ q.name ∷ [])
      × ((run role
            (editing_first p q ps)
            (delete true ∷ delete_reply "" ∷ list_loaded ps ∷ [])).list
          ≡ ps)
      × ((run role
            (editing_first p q ps)
            (delete true ∷ delete_reply "" ∷ list_loaded ps ∷ [])).selected
          ≡ some q.name)
      × ((run role
            (editing_first p q ps)
            (delete true ∷ delete_reply "" ∷ list_loaded ps ∷ [])).draft
          ≡ q.yaml)
unfolding run effects step act current delete_current select_first
run-delete role p q ps h s n k =
    ground
      (arith, eq_iff q.name "", eq_iff q.name new_key, eq_iff q.source "custom", eq_refl q.name)
