-- ===== src/Cases/Table.antt =====
-- The table of the case list, frontend/src/pages/Cases.tsx: the queries, the template of the form, and the
-- buttons of a row with the answer to an update.
use Prim.Native.String as Text
use socblitz.Common.{String, true, ◌==◌, Option, some, List, [], ◌∷◌, find?, if◌then◌else◌}
use socblitz.Common.Json.{num, str, obj, end, field}
use socblitz.Api.{cases, list_cases, list_case_templates, update_case}
use socblitz.Ui.{Effect, Query, send, invalidate, success, navigate}

unfoldable pub cases_query : Query
cases_query = record {
  key = str "cases" ∷ [];
  call = cases (list_cases (some (field "limit" (num 200) end)));
  enabled = true;
}

unfoldable pub templates_query : Query
templates_query = record {
  key = str "case-templates" ∷ [];
  call = cases list_case_templates;
  enabled = true;
}

-- what the form reads of a template
pub record CaseTemplate : Type 0 where
  pub key : String

-- `selectedTemplate`
unfoldable pub selected_template : List CaseTemplate → String → Option CaseTemplate
selected_template templates template = find? (λ t. t.key == template) templates

abbrev set_status : String → String → Effect
set_status id status = send (cases (update_case id (obj (field "status" (str status) end))))

-- the button Start of a row
unfoldable pub start_case : (id status : String) → List Effect
start_case id status = if status == "open" then set_status id "in_progress" ∷ [] else []

-- the button Resolve of a row
unfoldable pub resolve_case : (id status : String) → List Effect
resolve_case id status = if status == "in_progress" then set_status id "resolved" ∷ [] else []

-- a row, and its button with the eye
unfoldable pub open_case : (id : String) → List Effect
open_case id = navigate (Text.◌++◌ "/cases/" id) ∷ []

-- `onSuccess` of the update
unfoldable pub case_updated : List Effect
case_updated = invalidate (str "cases" ∷ []) ∷ success "Case updated" ∷ []
