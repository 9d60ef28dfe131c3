-- ===== src/CaseDetail/Writing.antt =====
-- The notes and the comments of a case.
use socblitz.Common.{
  String, Bool, true, not, ◌||◌, Option, none, some, List, [], ◌∷◌, truthy, trim, found_is,
  if◌then◌else◌,
}
use socblitz.Common.Json.{Fields, str, obj, end, field}
use socblitz.Api.{
  cases, create_case_note, update_case_note, delete_case_note, add_comment, update_comment,
}
use socblitz.Ui.{Effect, send, invalidate}

pub record NoteForm : Type 0 where
  pub title : String
  pub content : String

pub record Note : Type 0 where
  pub id : String
  pub title : String
  pub content : String

pub record Comment : Type 0 where
  pub id : String
  pub content : String

pub record Writing : Type 0 where
  pub note_form : NoteForm
  pub editing_note_id : Option String
  pub editing_note_draft : NoteForm
  pub comment_draft : String
  pub comment_internal : Bool
  pub editing_comment_id : Option String
  pub editing_comment_draft : String

unfoldable pub empty_note : NoteForm
empty_note = record { title = ""; content = "" }

unfoldable pub opened : Writing
unfolding empty_note
opened = record {
  note_form = empty_note;
  editing_note_id = none;
  editing_note_draft = empty_note;
  comment_draft = "";
  comment_internal = true;
  editing_comment_id = none;
  editing_comment_draft = "";
}

pub data Event : Type 0 where
  change_note : NoteForm → Event
  click_add_note : (is_pending : Bool) → Event
  edit_note : Note → Event
  change_note_draft : NoteForm → Event
  cancel_note : Event
  save_note : Note → Event
  delete_note : (note_id : String) → Event
  type_comment : String → Event
  set_internal : Bool → Event
  click_post : (is_pending : Bool) → Event
  edit_comment : Comment → Event
  type_comment_draft : String → Event
  cancel_comment : Event
  save_comment : Comment → Event
  -- answers of the server
  note_created : Event
  note_updated : Event
  note_deleted : Event
  comment_added : Event
  comment_updated : Event

note_body : NoteForm → Fields
note_body f = field "title" (str f.title) (field "content" (str f.content) end)

key_of : String → String → Effect
key_of name case_id = invalidate (str name ∷ str case_id ∷ [])

-- The answers of the server.
on_note_created : String → Writing → Writing × List Effect
unfolding key_of empty_note
on_note_created id w =
    (record w { note_form = empty_note }, key_of "case-notes" id ∷ key_of "case-timeline" id ∷ [])

on_note_updated : String → Writing → Writing × List Effect
unfolding key_of
on_note_updated id w = (record w { editing_note_id = none }, key_of "case-notes" id ∷ [])

on_note_deleted : String → Writing → Writing × List Effect
unfolding key_of
on_note_deleted id w = (w, key_of "case-notes" id ∷ [])

on_comment_added : String → Writing → Writing × List Effect
unfolding key_of
on_comment_added id w =
    (record w { comment_draft = "" }, key_of "case-comments" id ∷ key_of "case-timeline" id ∷ [])

on_comment_updated : String → Writing → Writing × List Effect
unfolding key_of
on_comment_updated id w = (record w { editing_comment_id = none }, key_of "case-comments" id ∷ [])

unfoldable pub act : String → Writing → Event → Writing × List Effect
unfolding note_body key_of empty_note on_note_created on_note_updated on_note_deleted
    on_comment_added on_comment_updated
act id w (change_note f) = (record w { note_form = f }, [])
act id w (click_add_note is_pending) = (
  w,
  if not (truthy (trim w.note_form.title)) || not (truthy (trim w.note_form.content)) || is_pending
      then []
      else send (cases (create_case_note id (obj (note_body w.note_form)))) ∷ [],
)
act id w (edit_note n) = (
  record w {
    editing_note_id = some n.id;
    editing_note_draft = record { title = n.title; content = n.content };
  },
  [],
)
act id w (change_note_draft f) = (record w { editing_note_draft = f }, [])
act id w cancel_note = (record w { editing_note_id = none }, [])
act id w (save_note n) = (
  w,
  if found_is w.editing_note_id n.id
      then send (cases (update_case_note id n.id (obj (note_body w.editing_note_draft)))) ∷ []
      else [],
)
act id w (delete_note note_id) = (w, send (cases (delete_case_note id note_id)) ∷ [])
act id w (type_comment s) = (record w { comment_draft = s }, [])
act id w (set_internal b) = (record w { comment_internal = b }, [])
act id w (click_post is_pending) = (
  w,
  if not (truthy (trim w.comment_draft)) || is_pending
      then []
      else send (cases (add_comment id w.comment_draft (some w.comment_internal))) ∷ [],
)
act id w (edit_comment c) =
    (record w { editing_comment_id = some c.id; editing_comment_draft = c.content }, [])
act id w (type_comment_draft s) = (record w { editing_comment_draft = s }, [])
act id w cancel_comment = (record w { editing_comment_id = none }, [])
act id w (save_comment c) = (
  w,
  if found_is w.editing_comment_id c.id
      then send (cases (update_comment id c.id w.editing_comment_draft)) ∷ []
      else [],
)
act id w note_created = on_note_created id w
act id w note_updated = on_note_updated id w
act id w note_deleted = on_note_deleted id w
act id w comment_added = on_comment_added id w
act id w comment_updated = on_comment_updated id w
