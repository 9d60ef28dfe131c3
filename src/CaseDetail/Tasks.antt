-- ===== src/CaseDetail/Tasks.antt =====
-- The tasks of a case.
use socblitz.Common.{
  ℕ, zero, suc, ◌%◌, String, Bool, not, ◌||◌, Option, none, some, List, [], ◌∷◌, ◌==◌, truthy, trim,
  or_null, get_elem?, if◌then◌else◌,
}
use socblitz.Common.Json.{str, obj, end, field, nullable}
use socblitz.Api.{cases, create_case_task, update_case_task, delete_case_task}
use socblitz.Ui.{Effect, send, invalidate}

abbrev pub task_status_order : List String
task_status_order = "to_do" ∷ "in_progress" ∷ "done" ∷ []

abbrev one_further : ℕ → ℕ
one_further zero = 0
one_further (suc n) = suc (suc n)

-- `xs.indexOf(s) + 1`, which is 0 where the text is not in the list
unfoldable pub index_of_plus_one : List String → String → ℕ
index_of_plus_one [] s = 0
index_of_plus_one (x ∷ xs) s = if x == s then 1 else one_further (index_of_plus_one xs s)

-- `TASK_STATUS_ORDER[(TASK_STATUS_ORDER.indexOf(t.status) + 1) % TASK_STATUS_ORDER.length]`
unfoldable pub next_status : String → Option String
unfolding index_of_plus_one
next_status s = get_elem? task_status_order (index_of_plus_one task_status_order s % 3)

pub record TaskForm : Type 0 where
  pub title : String
  pub due_date : String

unfoldable pub empty_form : TaskForm
empty_form = record { title = ""; due_date = "" }

unfoldable pub create : String → TaskForm → List Effect
create case_id f =
    send (
      cases (
        create_case_task case_id (
          obj
            (field "title" (str f.title) (field "due_date" (nullable (or_null f.due_date)) end)))))
    ∷ []

-- the button, disabled for a blank title and while a task is being created
unfoldable pub click_add : String → TaskForm → (is_pending : Bool) → List Effect
unfolding create
click_add case_id f is_pending =
    if not (truthy (trim f.title)) || is_pending then [] else create case_id f

-- the key Enter in the title
unfoldable pub press_enter : String → TaskForm → (is_pending : Bool) → List Effect
unfolding create
press_enter case_id f is_pending = if truthy (trim f.title) then create case_id f else []

abbrev status_update : String → String → Option String → List Effect
status_update case_id task_id none = send (cases (update_case_task case_id task_id (obj end))) ∷ []
status_update case_id task_id (some s) =
    send (cases (update_case_task case_id task_id (obj (field "status" (str s) end)))) ∷ []

-- the button before a task; an undefined status is left out of the JSON text
unfoldable pub cycle : String → (task_id status : String) → List Effect
unfolding next_status
cycle case_id task_id status = status_update case_id task_id (next_status status)

unfoldable pub delete : String → (task_id : String) → List Effect
delete case_id task_id = send (cases (delete_case_task case_id task_id)) ∷ []

tasks_key : String → Effect
tasks_key case_id = invalidate (str "case-tasks" ∷ str case_id ∷ [])

timeline_key : String → Effect
timeline_key case_id = invalidate (str "case-timeline" ∷ str case_id ∷ [])

unfoldable pub created : String → TaskForm → TaskForm × List Effect
unfolding empty_form tasks_key timeline_key
created case_id f = (empty_form, tasks_key case_id ∷ timeline_key case_id ∷ [])

unfoldable pub updated : String → List Effect
unfolding tasks_key timeline_key
updated case_id = tasks_key case_id ∷ timeline_key case_id ∷ []

unfoldable pub deleted : String → List Effect
unfolding tasks_key
deleted case_id = tasks_key case_id ∷ []
