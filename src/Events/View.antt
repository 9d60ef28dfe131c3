-- ===== src/Events/View.antt =====
-- What the event page shows, frontend/src/pages/Events.tsx: its query, the line below its title, and the rows
-- of the table. How long ago a time was is a parameter, `ago`.
use Prim.Native.String as Text
use socblitz.Common.{
  ℕ, String, Bool, not, Option, none, some, List, [], ◌∷◌, map, filter, eqb, truthy, or_text,
  or_null, if◌then◌else◌,
}
use socblitz.Common.Json.{Json, str}
use socblitz.Api.{Call}
use socblitz.Ui.{Part, say, number, Effect, navigate}
use socblitz.Ui.Table.{Line, lines, or_dash}
use socblitz.TimeRange.{TimeRange, RangeParams}
use socblitz.Alerts.Queries.{range_json}
use socblitz.Events.{Band, EventRow, level_bands, band_count, events_call}
use socblitz.AlertDetail.{band_color}

-- the key of the query
unfoldable pub events_key : TimeRange → (q : String) → List Json
events_key r q = str "events" ∷ range_json r ∷ str q ∷ []

-- its call, unless the range throws
unfoldable pub events_request : (q : String) → Option RangeParams → Option Call
events_request q none = none
events_request q (some range) = some (events_call range q)

-- a button of the bar with its count; a band without an event has none
abbrev button_of : List EventRow → Band → String × ℕ
button_of events b = (b.label, band_count b.key events)

unfoldable pub band_buttons : List EventRow → List (String × ℕ)
band_buttons events =
    map (button_of events) (filter (λ b. not (eqb (band_count b.key events) 0)) level_bands)

unfoldable pub subtitle : (shown all : ℕ) → List Part
subtitle shown all =
    say "Raw Wazuh alert stream — every rule level ("
    ∷ number shown
    ∷ say " of "
    ∷ number all
    ∷ say ")"
    ∷ []

-- what the table reads of an event; a missing value is ""
pub record EventLine : Type 0 where
  pub id : String
  pub level : ℕ
  pub description : String
  pub full_log : String
  pub agent_name : String
  pub agent_ip : String
  pub src_ip : String
  pub mitre_id : String
  pub mitre_tactic : String
  pub timestamp : String

-- a row: a part that is not shown is `none`
pub record Row : Type 0 where
  pub color : String
  pub level : List Part
  pub rule : String
  pub full_log : Option String
  pub agent : String
  pub agent_ip : Option String
  pub src_ip : String
  pub mitre : String
  pub mitre_tactic : Option String
  pub time : String
  pub on_click : List Effect

unfoldable pub row_of : (ago : String → String) → EventLine → Row
unfolding band_color
row_of ago e = record {
  color = band_color e.level;
  level = say "L" ∷ number e.level ∷ [];
  rule = or_text e.description "(no rule description)";
  full_log = or_null e.full_log;
  agent = or_dash e.agent_name;
  agent_ip = or_null e.agent_ip;
  src_ip = or_dash e.src_ip;
  mitre = or_dash e.mitre_id;
  mitre_tactic = if truthy e.mitre_id then or_null e.mitre_tactic else none;
  time = ago e.timestamp;
  on_click = navigate (Text.◌++◌ "/events/" e.id) ∷ [];
}

unfoldable pub table_body :
    (ago : String → String) → (is_loading : Bool) → List EventLine → List (Line Row)
table_body ago is_loading rows =
    lines is_loading "Loading events…" "No events matching current filters" (map (row_of ago) rows)
