-- ===== src/Examples/Updates.antt =====
-- Examples for the updates of alerts and cases, and for what the pages show.

use socblitz.Common.{
  ◌*◌, ◌+◌, ◌≤◌, String, Bool, true, false, ◌≡◌, refl, some, List, [], ◌∷◌, ◌++◌, All, any, map,
  length,
}
use socblitz.Common.JsonEq.{Json-discrete}
use socblitz.Common.Json.{Json, Fields, str, num, field, end}
use socblitz.Ui.{calls}
use socblitz.TimeRange.{default_range}
use socblitz.Alerts as Table
use socblitz.Alerts.{alert_updated}
use socblitz.Alerts.Queries.{alerts_key}
use socblitz.AlertDetail.{
  AlertRow, AlertDetail, alert_query, link_query, triage, updated, act, triage_alert,
}
use socblitz.AlertDetail.Lifecycle.{Follows, act-Follows}
use socblitz.CaseDetail.Header.{invalidate_case}
use socblitz.CaseDetail.Queries.{queries}
use socblitz.Cases.Table.{cases_query, case_updated}
use socblitz.Session.Refresh.{ByPrefix, refreshes, alert_updated-refreshes, case_updated-refreshes}
use socblitz.Posture.Overview.{Stats, total_of}
use socblitz.Posture.View.{severity_bar}
use socblitz.Posture.View.Bar.{IsShare, known, widths, severity_bar-widths}
use socblitz.ThreatIntel.{rows}
use socblitz.ThreatIntel.View.{source_table}
use socblitz.ThreatIntel.View.Spans.{Tiles, heads, source_table-Tiles}

-- a test of prefixes
abbrev decided : {f k : Json} → Dec (f ≡ k) → Bool → Bool
decided (yes e) b = b
decided (no n) b = false

fits : List Json → List Json → Bool
fits [] key = true
fits (f ∷ fs) [] = false
fits (f ∷ fs) (k ∷ ks) = decided (Json-discrete f k) (fits fs ks)

abbrev IsPrefix : List Json → List Json → Type 0
IsPrefix filter key = (rest : List Json) × (filter ++ rest ≡ key)

rest_at :
    {f k : Json} (fs ks : List Json) (d : Dec (f ≡ k)) (b : Bool)
    → (b ≡ true → IsPrefix fs ks)
    → decided d b ≡ true
    → IsPrefix (f ∷ fs) (k ∷ ks)
rest_at fs ks (yes e) b r h = let (rest, p) = r h in (rest, λ i. e i ∷ p i)
rest_at fs ks (no n) b r h = cc

rest_of : (filter key : List Json) → fits filter key ≡ true → IsPrefix filter key
unfolding fits
rest_of [] key h = (key, refl)
rest_of (f ∷ fs) [] h = cc
rest_of (f ∷ fs) (k ∷ ks) h = rest_at fs ks (Json-discrete f k) (fits fs ks) (rest_of fs ks) h

decided_refl : {f : Json} (d : Dec (f ≡ f)) (b : Bool) → b ≡ true → decided d b ≡ true
decided_refl (yes e) b h = h
decided_refl (no n) b h = absurd (n refl)

prefix_fits : (filter rest : List Json) → fits filter (filter ++ rest) ≡ true
unfolding fits
prefix_fits [] rest = refl
prefix_fits (f ∷ fs) rest =
    decided_refl (Json-discrete f f) (fits fs (fs ++ rest)) (prefix_fits fs rest)

by_prefix : ByPrefix fits
by_prefix filter key = (rest_of filter key, λ (rest, e). rw (← e) (prefix_fits filter rest))

abbrev new_alert : AlertRow
new_alert = record { status = "new"; case_id = "" }

abbrev alert_page : AlertDetail
alert_page = record { id = "a7"; alert = some new_alert; linking = false }

alert_updated-refreshes_example :
    (refreshes fits (act alert_page updated).1 (alerts_key "high" "" default_range "") ≡ true)
    × (refreshes fits (act alert_page updated).1 (alert_query alert_page).key ≡ true)
    × (refreshes fits alert_updated (alerts_key "high" "" default_range "") ≡ true)
    × (refreshes fits alert_updated (alert_query alert_page).key ≡ false)
alert_updated-refreshes_example =
    alert_updated-refreshes fits by_prefix alert_page "high" "" "" default_range

case_updated-refreshes_example :
    (refreshes fits (invalidate_case "c1") (str "case" ∷ str "c1" ∷ []) ≡ true)
    × (refreshes fits (invalidate_case "c1") cases_query.key ≡ true)
    × (refreshes fits (invalidate_case "c1") (link_query alert_page).key ≡ true)
    × (refreshes fits case_updated cases_query.key ≡ true)
    × (refreshes fits case_updated (link_query alert_page).key ≡ true)
    × (any (λ query. refreshes fits case_updated query.key) (queries "c1") ≡ false)
case_updated-refreshes_example = case_updated-refreshes fits by_prefix "c1" alert_page

act-Follows_example : All (Follows "a7" "new") (calls (act alert_page triage).1)
act-Follows_example = act-Follows alert_page new_alert triage refl

triages : length (calls (act alert_page triage).1) ≡ 1
unfolding act triage_alert
triages = refl

abbrev new_row : Table.Alert
new_row = record { id = "a7"; severity = "high"; status = "new" }

abbrev stats : Stats
stats = record { severity = ("critical", 3) ∷ ("other", 1) ∷ ("low", 96) ∷ []; new = 2 }

severity_bar-widths_example :
    All (IsShare (total_of stats.severity)) (severity_bar stats)
    × (widths (severity_bar stats) ≤ 100 * total_of stats.severity)
    × (200 * known stats ≤ 2 * widths (severity_bar stats) + 5 * total_of stats.severity)
severity_bar-widths_example = severity_bar-widths stats

abbrev sources : List (String × Fields)
sources =
    ("misp", field "hits" (num 2) (field "tag" (str "c2") end))
    ∷ ("otx", end)
    ∷ ("virustotal", field "error" (str "timeout") (field "code" (num 1) end))
    ∷ []

source_table-Tiles_example :
    Tiles 0 (source_table sources)
    × (heads (source_table sources) ≡ map (λ s. (s.0, length (rows s.1))) sources)
source_table-Tiles_example = source_table-Tiles sources
