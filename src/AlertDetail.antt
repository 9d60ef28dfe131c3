-- ===== src/AlertDetail.antt =====
-- The page of one alert, frontend/src/pages/AlertDetail.tsx: its queries, the buttons that change its
-- status, and the link to a case. And the page of one event, frontend/src/pages/EventDetail.tsx: its
-- query, its colour and how a value is printed.
pub mod Lifecycle
use Prim.Native.String as Text
use socblitz.Common.{
  ℕ, String, Bool, true, false, not, ◌&&◌, ◌==◌, Option, none, some, List, [], ◌∷◌, is_some, truthy,
  leb, if◌then◌else◌,
}
use socblitz.Common.Json.{Json, null, num, str, obj, end, field}
use socblitz.Api.{alerts, cases, get_alert, update_alert, list_cases, get_event}
use socblitz.Ui.{Effect, Part, Query, send, invalidate, success, navigate, say, value}

-- What the page reads of the alert; a missing case is "".
pub record AlertRow : Type 0 where
  pub status : String
  pub case_id : String

pub record AlertDetail : Type 0 where
  -- the id of the address
  pub id : String
  -- what the query has answered
  pub alert : Option AlertRow
  pub linking : Bool

unfoldable pub opened : String → AlertDetail
opened id = record { id = id; alert = none; linking = false }

unfoldable pub alert_query : AlertDetail → Query
alert_query p = record {
  key = str "alert" ∷ str p.id ∷ [];
  call = alerts (get_alert p.id);
  enabled = truthy p.id;
}

unfoldable pub link_query : AlertDetail → Query
link_query p = record {
  key = str "cases" ∷ str "for-link" ∷ [];
  call = cases (list_cases (some (field "limit" (num 200) end)));
  enabled = p.linking;
}

pub data Event : Type 0 where
  alert_loaded : AlertRow → Event
  back : Event
  triage : Event
  resolve : Event
  open_case : Event
  attach : Event
  cancel : Event
  pick_case : (case_id : String) → Event
  updated : Event
  update_failed : Event

abbrev update : String → String → String → Effect
update id key value_ = send (alerts (update_alert id (obj (field key (str value_) end))))

-- the button Triage, shown for a new alert
unfoldable pub triage_alert : String → Option AlertRow → List Effect
triage_alert id none = []
triage_alert id (some a) = if a.status == "new" then update id "status" "in_triage" ∷ [] else []

-- the button Resolve
unfoldable pub resolve_alert : String → Option AlertRow → List Effect
resolve_alert id none = []
resolve_alert id (some a) =
    if not (a.status == "resolved") && not (a.status == "false_positive")
    then update id "status" "resolved" ∷ []
    else []

open_linked : Option AlertRow → List Effect
open_linked none = []
open_linked (some a) =
    if truthy a.case_id then navigate (Text.◌++◌ "/cases/" a.case_id) ∷ [] else []

-- the alert is loaded and in no case
abbrev pub is_unlinked : Option AlertRow → Bool
is_unlinked none = false
is_unlinked (some a) = not (truthy a.case_id)

unfoldable pub link_to : AlertDetail → String → List Effect
link_to p case_id =
    if is_unlinked p.alert && p.linking && truthy case_id
    then update p.id "case_id" case_id ∷ []
    else []

unfoldable pub act : AlertDetail → Event → AlertDetail × List Effect
unfolding triage_alert resolve_alert open_linked link_to
act p (alert_loaded a) = (record p { alert = some a }, [])
act p back = (p, if is_some p.alert then navigate "/alerts" ∷ [] else [])
act p triage = (p, triage_alert p.id p.alert)
act p resolve = (p, resolve_alert p.id p.alert)
act p open_case = (p, open_linked p.alert)
act p attach = if is_unlinked p.alert then (record p { linking = true }, []) else (p, [])
act p cancel = if is_unlinked p.alert then (record p { linking = false }, []) else (p, [])
act p (pick_case case_id) = (p, link_to p case_id)
act p updated = (
  record p { linking = false },
  invalidate (str "alert" ∷ str p.id ∷ [])
      ∷ invalidate (str "alerts" ∷ [])
      ∷ success "Alert updated"
      ∷ [],
)
act p update_failed = (p, [])

-- the query of the event's page
unfoldable pub event_query : String → Query
event_query id = record {
  key = str "event" ∷ str id ∷ [];
  call = alerts (get_event id);
  enabled = truthy id;
}

-- `bandFor(level).color`
unfoldable pub band_color : ℕ → String
band_color level =
    if leb 12 level
    then "#f43f5e"
    else if leb 8 level
    then "#f97316"
    else if leb 4 level
    then "#f59e0b"
    else "#67e8f9"

-- `flattenValue`; a value that is put in as it is is printed by `String` or `JSON.stringify`
unfoldable pub flatten_value : Json → List Part
flatten_value null = say "—" ∷ []
flatten_value j = value j ∷ []
