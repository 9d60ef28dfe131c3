-- ===== src/CaseDetail/Frame.antt =====
-- What frames the tabs of the case page, frontend/src/pages/CaseDetail.tsx: the row of tabs with its counts,
-- the way back, and the button that downloads the report.
pub mod Report
use socblitz.Common.{
  ℕ, String, Bool, true, false, ◌==◌, Option, none, some, List, [], ◌∷◌, ltb, if◌then◌else◌,
}
use socblitz.Api.{cases, case_report}
use socblitz.Ui.{Effect, send, navigate, failure}

-- an entry of `TABS`
pub record Tab : Type 0 where
  pub key : String
  pub label : String

abbrev tab : String → String → Tab
tab key label = record { key = key; label = label }

abbrev pub tabs : List Tab
tabs =
    tab "overview" "Overview"
    ∷ tab "timeline" "Timeline"
    ∷ tab "alerts" "Alerts"
    ∷ tab "iocs" "IOCs"
    ∷ tab "assets" "Assets"
    ∷ tab "evidence" "Evidence"
    ∷ tab "tasks" "Tasks"
    ∷ tab "notes" "Notes"
    ∷ tab "comments" "Comments"
    ∷ []

-- the lengths of the lists that the queries have answered
pub record Loaded : Type 0 where
  pub alerts : Option ℕ
  pub observables : Option ℕ
  pub assets : Option ℕ
  pub evidence_list : Option ℕ
  pub tasks : Option ℕ
  pub notes : Option ℕ
  pub comments : Option ℕ

-- `xs?.length ?? 0`
abbrev length_or_0 : Option ℕ → ℕ
length_or_0 none = 0
length_or_0 (some n) = n

-- `count` of a tab
unfoldable pub count : Loaded → String → Option ℕ
count l key =
    if key == "alerts"
    then some (length_or_0 l.alerts)
    else if key == "iocs"
    then some (length_or_0 l.observables)
    else if key == "assets"
    then some (length_or_0 l.assets)
    else if key == "evidence"
    then some (length_or_0 l.evidence_list)
    else if key == "tasks"
    then some (length_or_0 l.tasks)
    else if key == "notes"
    then some (length_or_0 l.notes)
    else if key == "comments"
    then some (length_or_0 l.comments)
    else none

abbrev positive : Option ℕ → Option ℕ
positive none = none
positive (some n) = if ltb 0 n then some n else none

-- the number beside the label, where one is shown
unfoldable pub badge : Loaded → String → Option ℕ
unfolding count
badge l key = positive (count l key)

pub record Frame : Type 0 where
  pub tab : String
  pub downloading : Bool

unfoldable pub opened : Frame
opened = record { tab = "overview"; downloading = false }

pub data Event : Type 0 where
  press_tab : Tab → Event
  press_back : Event
  press_report : Event
  -- the end of the awaited download
  downloaded : Event
  download_failed : Event

-- `handleDownloadReport` up to its `await`; the button is disabled while `downloading`
unfoldable pub press : (id : String) → Frame → Frame × List Effect
press id f =
    if f.downloading
    then (f, [])
    else (record f { downloading = true }, send (cases (case_report id)) ∷ [])

-- the rest of it, which runs while the download is awaited
unfoldable pub settle : List Effect → Frame → Frame × List Effect
settle effects f = if f.downloading then (record f { downloading = false }, effects) else (f, [])

unfoldable pub act : (id : String) → Frame → Event → Frame × List Effect
unfolding press settle
act id f (press_tab t) = (record f { tab = t.key }, [])
act id f press_back = (f, navigate "/cases" ∷ [])
act id f press_report = press id f
act id f downloaded = settle [] f
act id f download_failed = settle (failure "Failed to generate report" ∷ []) f

unfoldable pub run : (id : String) → Frame → List Event → Frame
run id f [] = f
run id f (e ∷ es) = run id (act id f e).0 es
