-- ===== src/CaseDetail/Header.antt =====
-- The header of a case: status, priority, assignee, TLP and PAP, and the dialog that asks for a
-- classification before a case is resolved or closed.
use socblitz.Common.{
  String, Bool, true, false, not, ◌&&◌, ◌||◌, Option, none, some, List, [], ◌∷◌, ◌==◌, any, truthy,
  or_null, if◌then◌else◌,
}
use socblitz.Common.Json.{Fields, null, str, obj, end, field, nullable}
use socblitz.Api.{cases, update_case}
use socblitz.Ui.{Effect, send, invalidate, failure}

abbrev pub status_options : List String
status_options = "open" ∷ "in_progress" ∷ "pending" ∷ "resolved" ∷ "closed" ∷ []

abbrev pub closing_statuses : List String
closing_statuses = "resolved" ∷ "closed" ∷ []

abbrev pub classification_options : List String
classification_options =
    "true_positive" ∷ "false_positive" ∷ "benign_positive" ∷ "undetermined" ∷ "security_testing"
    ∷ "other" ∷ []

-- `xs.includes(s)`
unfoldable pub listed : String → List String → Bool
listed s xs = any (λ x. x == s) xs

-- What the header reads of the case that the query holds.
pub record Case : Type 0 where
  pub status : String
  pub classification : Option String
  pub assigned_to : Option String

-- The page's state that the header changes.
pub record Header : Type 0 where
  -- the pending status that awaits a classification
  pub closing_modal : Option String
  pub classification_draft : String
  pub closure_note_draft : String

unfoldable pub opened : Header
opened = record {
  closing_modal = none;
  classification_draft = "true_positive";
  closure_note_draft = "";
}

pub data Event : Type 0 where
  pick_status : String → Event
  pick_priority : String → Event
  pick_tlp : String → Event
  pick_pap : String → Event
  assign : Event
  unassign : Event
  pick_classification : String → Event
  type_closure_note : String → Event
  cancel : Event
  confirm : (is_pending : Bool) → Event
  -- the answers of the server to an update, and to the update that the dialog made
  updated : Event
  update_failed : Event
  dialog_updated : Event

-- `!c.classification`
abbrev pub is_classified : Option String → Bool
is_classified none = false
is_classified (some cl) = truthy cl

abbrev update : String → Fields → Effect
update id fs = send (cases (update_case id (obj fs)))

-- `invalidateCase`
unfoldable pub invalidate_case : String → List Effect
invalidate_case id =
    invalidate (str "case" ∷ str id ∷ [])
    ∷ invalidate (str "case-timeline" ∷ str id ∷ [])
    ∷ invalidate (str "cases" ∷ [])
    ∷ []

-- the `onChange` of the status
pick : String → Case → Header → String → Header × List Effect
pick id c h next =
    if listed next closing_statuses && not (is_classified c.classification)
    then (
      record {
        closing_modal = some next;
        classification_draft = "true_positive";
        closure_note_draft = "";
      },
      [],
    )
    else (h, update id (field "status" (str next) end) ∷ [])

-- the button of the dialog, which is shown while `closingModal` is a status
confirm_at : String → Header → Option String → Bool → Header × List Effect
confirm_at id h none is_pending = (h, [])
confirm_at id h (some status) is_pending = if not (truthy status) || is_pending then (h, []) else (
  h,
  update id (
        field "status" (str status) (
          field "classification" (str h.classification_draft)
            (field "closure_note" (nullable (or_null h.closure_note_draft)) end)))
      ∷ [],
)

-- `c.assigned_to === userId`
same_user : Option String → Option String → Bool
same_user none none = true
same_user (some a) (some b) = a == b
same_user _ _ = false

-- `user_id` is that of the store. The assignment buttons exclude one another.
unfoldable pub act :
    (id : String) (user_id : Option String) → Case → Header → Event → Header × List Effect
unfolding pick confirm_at same_user invalidate_case
act id user_id c h (pick_status next) = pick id c h next
act id user_id c h (pick_priority p) = (h, update id (field "priority" (str p) end) ∷ [])
act id user_id c h (pick_tlp t) = (h, update id (field "tlp" (str t) end) ∷ [])
act id user_id c h (pick_pap t) = (h, update id (field "pap" (str t) end) ∷ [])
act id user_id c h assign =
    if same_user c.assigned_to user_id
    then (h, [])
    else (h, update id (field "assigned_to" (nullable user_id) end) ∷ [])
act id user_id c h unassign =
    if same_user c.assigned_to user_id
    then (h, update id (field "assigned_to" null end) ∷ [])
    else (h, [])
act id user_id c h (pick_classification cl) = (record h { classification_draft = cl }, [])
act id user_id c h (type_closure_note s) = (record h { closure_note_draft = s }, [])
act id user_id c h cancel = (record h { closing_modal = none }, [])
act id user_id c h (confirm is_pending) = confirm_at id h h.closing_modal is_pending
act id user_id c h updated = (h, invalidate_case id)
act id user_id c h update_failed = (h, failure "Failed to update case" ∷ [])
act id user_id c h dialog_updated = (record h { closing_modal = none }, invalidate_case id)

-- A sequence of events, each with the case as the query holds it at that moment.
unfoldable pub run : (id : String) (user_id : Option String) → Header → List (Case × Event) → Header
run id user_id h [] = h
run id user_id h ((c, e) ∷ es) = run id user_id (act id user_id c h e).0 es
