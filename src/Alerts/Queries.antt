-- ===== src/Alerts/Queries.antt =====
-- The query of the alert page, frontend/src/pages/Alerts.tsx: its key and its request. The key holds the
-- object of the time range, in which a limit that is undefined is no key.
use socblitz.Common.{ℕ, String, ◌≡◌, refl, Option, none, some, List, [], ◌∷◌, eq_iff, arith}
use socblitz.Common.Json.{Json, Fields, str, obj, end, field}
use socblitz.Api.{Call, alerts, list_alerts}
use socblitz.TimeRange.{TimeRange, RangeParams, range_to_params}
use socblitz.Alerts.{alerts_params}

abbrev if_defined : String → Option String → Fields → Fields
if_defined key none rest = rest
if_defined key (some v) rest = field key (str v) rest

unfoldable pub range_json : TimeRange → Json
range_json r =
    obj (field "preset" (str r.preset) (if_defined "start" r.start (if_defined "end" r.stop end)))

unfoldable pub alerts_key : (sev status : String) → TimeRange → (q : String) → List Json
alerts_key sev status r q = str "alerts" ∷ str sev ∷ str status ∷ range_json r ∷ str q ∷ []

unfoldable pub alerts_call : (sev status q : String) → Option RangeParams → Option Call
alerts_call sev status q none = none
alerts_call sev status q (some range) =
    some (alerts (list_alerts (some (alerts_params sev status q range))))

range_json-injective : (r s : TimeRange) → range_json r ≡ range_json s → r ≡ s
unfolding range_json
range_json-injective r s e = ground (arith, e, eq_iff "start" "end")

-- Two states of the alert page with the same key of the query ask for the same alerts, whatever the clock
-- says: a cached answer is one to the same question.
pub alerts_key-call :
    (iso_of : String → Option String) (iso_at : ℕ → String) (now : ℕ)
    (sev status q sev' status' q' : String) (r r' : TimeRange)
    → alerts_key sev status r q ≡ alerts_key sev' status' r' q'
    → alerts_call sev status q (range_to_params iso_of iso_at now r)
      ≡ alerts_call sev' status' q' (range_to_params iso_of iso_at now r')
unfolding alerts_key
alerts_key-call iso_of iso_at now sev status q sev' status' q' r r' e =
    let same_sev : sev ≡ sev' = ground (arith, e) in
    let same_status : status ≡ status' = ground (arith, e) in
    let same_range : range_json r ≡ range_json r' = ground (arith, e) in
    let same_q : q ≡ q' = ground (arith, e) in
    rw (same_sev, same_status, same_q, range_json-injective r r' same_range) refl
