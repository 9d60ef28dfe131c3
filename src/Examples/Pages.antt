-- ===== src/Examples/Pages.antt =====
-- Examples for the pages of events, alerts, cases, the overview and the dark web.
use socblitz.Common.{
  true, false, ℕ, ◌-◌, ◌*◌, ◌≤◌, String, ◌≡◌, refl, ◌≢◌, Option, none, some, List, [], ◌∷◌, eq_iff,
  arith, trim,
}
use socblitz.TimeRange.{TimeRange, range_to_params}
use socblitz.TimeRange.Laws.{relative-range}
use socblitz.SearchBox
use socblitz.SearchBox.{type, elapse, run, opened}
use socblitz.TimeRange.{RangeParams}
use socblitz.Posture.{get_threat_level, score}
use socblitz.Alerts.Queries.{alerts_key, alerts_call, alerts_key-call}
use socblitz.Alerts.{toggle_severity, Alert, buttons, severity_count}
use socblitz.Cases.{CaseRow, CasesPage}
use socblitz.DarkWeb as Watch
use socblitz.Events.{EventRow, band_for, with_band, filtered}
use socblitz.CaseDetail.Header as Header

-- the texts of a clock for tests
abbrev iso_of : String → Option String
iso_of s = some s

abbrev small_letters : String → String
small_letters s = s

abbrev iso_at : ℕ → String
iso_at n = "then"

abbrev last_week : TimeRange
last_week = record { preset = "7d"; start = some "2024-01-01T00:00"; stop = none }

not_custom : last_week.preset ≢ "custom"
not_custom e = ground (arith, eq_iff "7d" "custom")

relative-range_example :
    (hours : ℕ) × (1 ≤ hours)
    × (hours ≤ 720)
    × ((start stop : Option String)
        → range_to_params iso_of iso_at 1700000000000
            (record last_week { start = start; stop = stop })
          ≡ some (record { start = some (iso_at (1700000000000 - hours * 3600000)); stop = none }))
relative-range_example = relative-range iso_of iso_at 1700000000000 last_week not_custom

abbrev keys : List SearchBox.Event
keys = type "ssh" ∷ elapse ∷ type " sshd " ∷ []

sent_query : (SearchBox.act (run opened keys) elapse).q ≡ "sshd"
unfolding SearchBox.act run opened trim
sent_query = refl

abbrev row : String → ℕ → EventRow
row id level = record { id = id; level = level }

abbrev rows : List EventRow
rows = row "a" 3 ∷ row "b" 12 ∷ row "c" 7 ∷ row "d" 15 ∷ []

critical_ne : (◌≡◌ {A = String} "critical" "") → ⊥
critical_ne e = ground (arith, eq_iff "critical" "")

critical_rows : filtered "critical" rows ≡ (row "b" 12, "critical") ∷ (row "d" 15, "critical") ∷ []
unfolding filtered with_band band_for
critical_rows = refl

elevated : (get_threat_level 20 20 60).label ≡ "Elevated"
unfolding get_threat_level score
elevated = refl

some_alerts : (◌≡◌ {A = ℕ} 60 0) → ⊥
some_alerts e = ground arith

abbrev day : RangeParams
day = record { start = some "2024-01-01T00:00:00.000Z"; stop = none }

abbrev high_alerts : List Alert
high_alerts =
    record { id = "a1"; severity = "high"; status = "new" }
    ∷ record { id = "a2"; severity = "high"; status = "resolved" }
    ∷ []

one_button : buttons high_alerts ≡ "high" ∷ []
unfolding buttons severity_count
one_button = refl

abbrev case_row : String → String → CaseRow
case_row id status = record {
  id = id;
  title = some id;
  description = none;
  assignee_name = none;
  status = status;
}

abbrev case_rows : List CaseRow
case_rows = case_row "c1" "open" ∷ case_row "c2" "pending" ∷ case_row "c3" "closed" ∷ []

abbrev cases_page : CasesPage
cases_page = record {
  search = "";
  status_filt = "";
  creating = false;
  form = record { title = ""; description = ""; priority = "medium"; template = "" };
}

open_ne : (◌≡◌ {A = String} "open" "") → ⊥
open_ne e = ground (arith, eq_iff "open" "")

not_chosen : (◌≡◌ {A = String} "" "open") → ⊥
not_chosen e = ground (arith, eq_iff "open" "")

abbrev searching_page : List Watch.Event
searching_page = Watch.type_query "acme.com" ∷ Watch.submit_search ∷ []

searches : (Watch.run Watch.opened searching_page).loading ≡ true
unfolding Watch.run Watch.act Watch.opened trim
searches = refl

abbrev ready_page : Watch.DarkWeb
ready_page = record {
  entity_type = Watch.domain;
  query = "acme.com";
  result = none;
  loading = false;
  add_type = Watch.domain;
  add_value = "";
  waiting = false;
}

asks : trim ready_page.query ≢ ""
unfolding trim
asks e = ground (arith, eq_iff "acme.com" "")

abbrev in_progress : Header.Case
in_progress = record { status = "in_progress"; classification = none; assigned_to = none }

-- the severity high was chosen by its button
same_keys :
    alerts_key (toggle_severity "" "high") "" last_week "agent:web"
    ≡ alerts_key "high" "" last_week "agent:web"
unfolding toggle_severity
same_keys = refl

alerts_key-call_example :
    alerts_call
      (toggle_severity "" "high")
      ""
      "agent:web"
      (range_to_params iso_of iso_at 1700000000000 last_week)
    ≡ alerts_call "high" "" "agent:web" (range_to_params iso_of iso_at 1700000000000 last_week)
alerts_key-call_example =
    alerts_key-call iso_of iso_at 1700000000000 (toggle_severity "" "high") "" "agent:web" "high" ""
      "agent:web" last_week last_week same_keys
