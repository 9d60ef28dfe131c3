-- ===== src/Alerts/Laws.antt =====
-- The parameters of the request, and which severity buttons are shown.
use socblitz.Common.{
  String, true, ◌≡◌, refl, ◌≢◌, Option, none, some, List, [], ◌∷◌, ◌==◌, eq_iff, All, eqb, not,
  truthy, if◌then◌else◌, arith, Bool-cases, inl, inr, filter-All, All-map, eq_of_==,
}
use socblitz.Common.Json.{Json, str, num, get}
use socblitz.TimeRange.{RangeParams}
use socblitz.Alerts.{Alert, severities, alerts_params, severity_count, buttons}

abbrev given : String → Option Json
given s = if truthy s then some (str s) else none

abbrev limit_of : Option String → Option Json
limit_of none = none
limit_of (some s) = some (str s)

-- Each parameter of the request is what the page holds: the severity, the status and the query where
-- one is chosen, both ends of the range where they are set, and the limit of 200; none of them
-- overwrites another.
pub get-alerts_params :
    (sev status q : String) (range : RangeParams)
    → (get "severity" (alerts_params sev status q range) ≡ given sev)
      × (get "status" (alerts_params sev status q range) ≡ given status)
      × (get "q" (alerts_params sev status q range) ≡ given q)
      × (get "start" (alerts_params sev status q range) ≡ limit_of range.start)
      × (get "end" (alerts_params sev status q range) ≡ limit_of range.stop)
      × (get "limit" (alerts_params sev status q range) ≡ some (num 200))
unfolding alerts_params
get-alerts_params sev status q range = ground arith

severity_count-other :
    (sev s : String) (rows : List Alert)
    → s ≢ sev
    → All (λ a. a.severity ≡ sev) rows
    → severity_count s rows ≡ 0
unfolding severity_count
severity_count-other sev s [] n h = refl
severity_count-other sev s (a ∷ rows) n (h, hs) =
    ground (arith, eq_iff a.severity s, severity_count-other sev s rows n hs)

shown_is :
    (sev s : String) (rows : List Alert)
    → All (λ a. a.severity ≡ sev) rows
    → not (eqb (severity_count s rows) 0) ≡ true
    → s ≡ sev
shown_is sev s rows h e = elim (Bool-cases (s == sev)) [
  | inl q ↦ eq_of_== s sev q
  | inr q ↦
      ground
        (arith, eq_iff s sev, severity_count-other sev s rows (λ r. ground (arith, eq_iff s sev)) h)
]

-- While the rows are all of one severity, no button of another severity is shown; without rows no
-- button is shown at all.
pub buttons-filtered :
    (sev : String) (rows : List Alert)
    → All (λ a. a.severity ≡ sev) rows
    → All (λ s. s ≡ sev) (buttons rows) × (buttons [] ≡ [])
unfolding buttons severity_count
buttons-filtered sev rows h = (
  All-map (λ s e. shown_is sev s rows h e) _
      (filter-All (λ s. not (eqb (severity_count s rows) 0)) severities),
  refl,
)
