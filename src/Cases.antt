-- ===== src/Cases.antt =====
-- The list of cases, frontend/src/pages/Cases.tsx: search, the filter by status with its counts, and
-- the form for a new case.
pub mod Closing
pub mod Laws
pub mod Table
pub mod View
use socblitz.Common.{
  ℕ, String, Bool, true, false, not, ◌&&◌, ◌||◌, Option, none, some, List, [], ◌∷◌, ◌==◌, truthy,
  or_null, or_else, includes, any, filter, find?, length, if◌then◌else◌,
}
use socblitz.Common.Json.{Json, str, obj, end, field, nullable}
use socblitz.Api.{cases, create_case}
use socblitz.Ui.{Effect, send, invalidate, success}

-- an entry of `STATUS_CONFIG`, without its colour and icon
pub record StatusConfig : Type 0 where
  pub key : String
  pub label : String

abbrev config : String → String → StatusConfig
config key label = record { key = key; label = label }

abbrev pub open_config : StatusConfig
open_config = config "open" "Open"

abbrev pub status_config : List StatusConfig
status_config =
    open_config
    ∷ config "in_progress" "In progress"
    ∷ config "resolved" "Resolved"
    ∷ config "closed" "Closed"
    ∷ []

-- what the page reads of a case
pub record CaseRow : Type 0 where
  pub id : String
  pub title : Option String
  pub description : Option String
  pub assignee_name : Option String
  pub status : String

pub record NewCaseForm : Type 0 where
  pub title : String
  pub description : String
  pub priority : String
  pub template : String

pub record CasesPage : Type 0 where
  pub search : String
  pub status_filt : String
  pub creating : Bool
  pub form : NewCaseForm

unfoldable pub empty_case_form : NewCaseForm
empty_case_form = record { title = ""; description = ""; priority = "medium"; template = "" }

-- `toLowerCase` belongs to the platform and is a parameter.
module _ (lower : String → String) where
  -- `f?.toLowerCase().includes(search.toLowerCase())`
  abbrev pub holds : String → Option String → Bool
  holds search none = false
  holds search (some f) = includes (lower f) (lower search)

  unfoldable pub match_search : String → CaseRow → Bool
  match_search search c =
      not (truthy search) || any (holds search) (c.title ∷ c.description ∷ c.assignee_name ∷ [])

  -- `filtered`
  unfoldable pub shown_cases : CasesPage → List CaseRow → List CaseRow
  unfolding match_search
  shown_cases p rows =
      filter
        (λ c. match_search p.search c && (not (truthy p.status_filt) || c.status == p.status_filt))
        rows

-- `counts[k]`
unfoldable pub status_count : String → List CaseRow → ℕ
status_count k rows = length (filter (λ c. c.status == k) rows)

-- a tile of the summary
unfoldable pub click_status : String → CasesPage → CasesPage
click_status k p = record p { status_filt = if p.status_filt == k then "" else k }

-- `STATUS_CONFIG[c.status] || STATUS_CONFIG.open`
unfoldable pub shown_status : String → StatusConfig
shown_status status = or_else (find? (λ s. s.key == status) status_config) open_config

-- the button of the form, disabled without a title and while a case is being created
unfoldable pub create_button : CasesPage → (is_pending : Bool) → List Effect
create_button p is_pending =
    if not (truthy p.form.title) || is_pending
    then []
    else send (
        cases (
          create_case (
            obj (
              field "title" (str p.form.title) (
                field "description" (str p.form.description) (
                  field "priority" (str p.form.priority)
                    (field "template" (nullable (or_null p.form.template)) end)))))))
      ∷ []

-- `onSuccess` of the creation
unfoldable pub case_created : CasesPage → CasesPage × List Effect
unfolding empty_case_form
case_created p = (
  record p { creating = false; form = empty_case_form },
  invalidate (str "cases" ∷ []) ∷ success "Case created" ∷ [],
)
