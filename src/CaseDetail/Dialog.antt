-- ===== src/CaseDetail/Dialog.antt =====
-- The dialog that asks for a classification, from opening it to the update that it sends.
use socblitz.Common.{
  String, ◌≡◌, refl, ◌⊎◌, inl, inr, true, false, Option, none, some, List, [], ◌∷◌, eq_iff, truthy,
  or_null, arith, ap, ◌∙◌,
}
use socblitz.Common.Json.{str, obj, end, field, nullable}
use socblitz.Api.{cases, update_case}
use socblitz.Ui.{calls}
use socblitz.CaseDetail.Header.{
  closing_statuses, listed, Case, Header, Event, pick_status, pick_classification,
  type_closure_note, confirm, dialog_updated, is_classified, act, run,
}

-- the events by which a user fills the dialog in
abbrev pub filling : Case → (status cl note : String) → List (Case × Event)
filling c status cl note =
    (c, pick_status status) ∷ (c, pick_classification cl) ∷ (c, type_closure_note note) ∷ []

closing-cases : (s : String) → listed s closing_statuses ≡ true → (s ≡ "resolved") ⊎ (s ≡ "closed")
unfolding listed
closing-cases s h = ground (arith, eq_iff "resolved" s, eq_iff "closed" s)

closing-truthy : (s : String) → listed s closing_statuses ≡ true → truthy s ≡ true
closing-truthy s h = elim (closing-cases s h) [ inl e ↦ rw e refl | inr e ↦ rw e refl ]

abbrev draft : String → String → String → Header
draft status cl note = record {
  closing_modal = some status;
  classification_draft = cl;
  closure_note_draft = note;
}

module _ (id : String) (user_id : Option String) where
  pick_status-opens :
      (c : Case) (h : Header) (status : String)
      → listed status closing_statuses ≡ true
      → is_classified c.classification ≡ false
      → act id user_id c h (pick_status status) ≡ (draft status "true_positive" "", [])
  unfolding act
  pick_status-opens c h status l k = ground arith

  confirm-draft :
      (c : Case) (status cl note : String)
      → truthy status ≡ true
      → calls (act id user_id c (draft status cl note) (confirm false)).1
        ≡ cases (
            update_case id (
              obj (
                field "status" (str status) (
                  field "classification"
                    (str cl)
                    (field "closure_note" (nullable (or_null note)) end)))))
          ∷ []
  unfolding act
  confirm-draft c status cl note t = rw t refl

  -- Picking a closing status for a case without a classification sends nothing at once; filling the
  -- dialog in and confirming it sends one update, with the status, the classification and the note
  -- that were chosen, a note left empty as null; the answer closes the dialog.
  pub confirm-filling :
      (c : Case) (h : Header) (status cl note : String)
      → listed status closing_statuses ≡ true
      → is_classified c.classification ≡ false
      → (calls (act id user_id c h (pick_status status)).1 ≡ [])
        × (calls (act id user_id c (run id user_id h (filling c status cl note)) (confirm false)).1
            ≡ cases (
                update_case id (
                  obj (
                    field "status" (str status) (
                      field "classification"
                        (str cl)
                        (field "closure_note" (nullable (or_null note)) end)))))
              ∷ [])
        × ((act id user_id c
              (run id user_id h (filling c status cl note))
              dialog_updated).0.closing_modal
            ≡ none)
  unfolding act run
  confirm-filling c h status cl note l k =
      let opens : act id user_id c h (pick_status status) ≡ (draft status "true_positive" "", []) =
        pick_status-opens c h status l k in
      (
        ap (λ r. calls r.1) opens,
        ap
              (λ r.
                calls
                  (act id user_id c
                    (run id user_id r.0
                      ((c, pick_classification cl) ∷ (c, type_closure_note note) ∷ []))
                    (confirm false)).1)
              opens
            ∙ confirm-draft c status cl note (closing-truthy status l),
        refl,
      )
