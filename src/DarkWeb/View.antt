-- ===== src/DarkWeb/View.antt =====
-- What the dark web page shows, frontend/src/pages/DarkWeb.tsx: the tiles, the result of a search, the assets and
-- the findings. How a date is printed is a parameter, `print`.
use Prim.Native.String as Text
use socblitz.Common.{
  ℕ, String, true, ◌+◌, ◌==◌, Option, none, some, List, [], ◌∷◌, ◌++◌, map, length, ltb, eqb,
  or_else, or_text, or_null, truthy, if◌then◌else◌,
}
use socblitz.Common.Json.{str, num, end, field}
use socblitz.Api.{intel, darkweb_stats, darkweb_assets, darkweb_findings}
use socblitz.Ui.{Part, say, number, Query}
use socblitz.DarkWeb.{EntityType, domain, email, keyword}

-- `ENTITY_META`: the label and the placeholder
abbrev pub entity_label : EntityType → String
entity_label domain = "Company domain"
entity_label email = "Email address"
entity_label keyword = "Brand / keyword"

abbrev pub entity_placeholder : EntityType → String
entity_placeholder domain = "acme.com"
entity_placeholder email = "ceo@acme.com"
entity_placeholder keyword = "Acme Corp"

-- `STATUS_LABEL`, the entries of the box in a row
abbrev pub finding_statuses : List (String × String)
finding_statuses =
    ("new", "New")
    ∷ ("investigating", "Investigating")
    ∷ ("resolved", "Resolved")
    ∷ ("false_positive", "False positive")
    ∷ []

-- `SOURCE_LABEL[s] || s`
unfoldable pub source_label : String → String
source_label s =
    if s == "hibp"
    then "Breach Index"
    else if s == "intelx"
    then "Darkweb Search"
    else if s == "dehashed"
    then "Credential Leaks"
    else if s == "leakcheck"
    then "Leak Database"
    else s

-- `SEV_COLOR[s]`
unfoldable pub sev_color : String → Option String
sev_color s =
    if s == "critical"
    then some "#f43f5e"
    else if s == "high"
    then some "#f97316"
    else if s == "medium"
    then some "#eab308"
    else if s == "low"
    then some "#38bdf8"
    else if s == "info"
    then some "#94a3b8"
    else none

-- the badge of a severity: its colour and its text
unfoldable pub sev_badge : String → String × String
unfolding sev_color
sev_badge severity = (or_else (sev_color severity) "#94a3b8", severity)

unfoldable pub stats_query : Query
stats_query = record { key = str "darkweb-stats" ∷ []; call = intel darkweb_stats; enabled = true }

unfoldable pub assets_query : Query
assets_query = record {
  key = str "darkweb-assets" ∷ [];
  call = intel darkweb_assets;
  enabled = true;
}

unfoldable pub findings_query : Query
findings_query = record {
  key = str "darkweb-findings" ∷ [];
  call = intel (darkweb_findings (some (field "limit" (num 100) end)));
  enabled = true;
}

-- what the tiles read of the statistics; a missing number is `none`
pub record Stats : Type 0 where
  pub monitored_assets : Option ℕ
  pub total_findings : Option ℕ
  pub critical : Option ℕ
  pub high : Option ℕ
  pub new : Option ℕ

unfoldable pub tiles : Stats → List (String × ℕ)
tiles s =
    ("Monitored assets", or_else s.monitored_assets 0)
    ∷ ("Total exposures", or_else s.total_findings 0)
    ∷ ("Critical / high", or_else s.critical 0 + or_else s.high 0)
    ∷ ("New / untriaged", or_else s.new 0)
    ∷ []

-- what the tables read of a finding; a missing text is ""
pub record Finding : Type 0 where
  pub severity : String
  pub title : String
  pub description : String
  pub exposed_data : List String
  pub source : String
  pub entity_value : String
  pub leak_date : String
  pub status : String

-- `xs.join(sep)`
abbrev pub join : String → List String → String
join sep [] = ""
join sep (s ∷ []) = s
join sep (s ∷ t ∷ ts) = Text.◌++◌ s (Text.◌++◌ sep (join sep (t ∷ ts)))

-- `exposed_data?.length > 0 && …`
abbrev data_text : List String → Option String
data_text [] = none
data_text (d ∷ ds) = some (join " · " (d ∷ ds))

-- a row of the feed
pub record FindingRow : Type 0 where
  pub badge : String × String
  pub title : String
  pub exposed : Option String
  pub source : String
  pub asset : String
  pub leak_date : String
  pub status : String

unfoldable pub finding_row : Finding → FindingRow
unfolding sev_badge source_label
finding_row f = record {
  badge = sev_badge f.severity;
  title = f.title;
  exposed = data_text f.exposed_data;
  source = source_label f.source;
  asset = f.entity_value;
  leak_date = or_text f.leak_date "—";
  status = f.status;
}

-- what the table reads of a monitored asset
pub record Asset : Type 0 where
  pub value : String
  pub entity_type : String
  pub finding_count : ℕ
  pub new_count : ℕ
  pub last_scanned_at : String

abbrev new_cell : ℕ → List Part
new_cell n = if ltb 0 n then number n ∷ [] else say "—" ∷ []

-- the cells of a row
unfoldable pub asset_row : (print : String → String) → Asset → List (List Part)
asset_row print a =
    (say a.value ∷ [])
    ∷ (say a.entity_type ∷ [])
    ∷ (number a.finding_count ∷ [])
    ∷ new_cell a.new_count
    ∷ (say (if truthy a.last_scanned_at then print a.last_scanned_at else "Pending first scan…")
        ∷ [])
    ∷ []

-- what the panel reads of the answer to a search; a missing list is empty
pub record Found : Type 0 where
  pub findings : List Finding
  pub skipped : List String
  pub errors : List (String × String)
  pub sources : ℕ
  pub latest_leak : String

-- the ending of a plural
abbrev plural : ℕ → String
plural n = if eqb n 1 then "" else "s"

unfoldable pub summary : Found → List Part
summary r =
    number (length r.findings)
    ∷ say (Text.◌++◌ " exposure" (Text.◌++◌ (plural (length r.findings)) " found"))
    ∷ say "across "
    ∷ number r.sources
    ∷ say (Text.◌++◌ " source" (plural r.sources))
    ∷ say (if truthy r.latest_leak then Text.◌++◌ " · latest " r.latest_leak else "")
    ∷ []

abbrev skipped_line : List String → List String
skipped_line [] = []
skipped_line (s ∷ ss) = Text.◌++◌ "Not checked: " (join ", " (s ∷ ss)) ∷ []

abbrev error_line : String × String → String
error_line (src, msg) = Text.◌++◌ (source_label src) (Text.◌++◌ ": " msg)

-- the notes below the findings
unfoldable pub notes : Found → List String
unfolding source_label
notes r = skipped_line r.skipped ++ map error_line r.errors

-- a card of the result: colour of the border, badge, title, source, description and data
pub record Card : Type 0 where
  pub border : String
  pub badge : String × String
  pub title : String
  pub source : String
  pub description : Option String
  pub exposed_data : List String

unfoldable pub card : Finding → Card
unfolding sev_color sev_badge source_label
card f = record {
  border = or_else (sev_color f.severity) "var(--line)";
  badge = sev_badge f.severity;
  title = f.title;
  source = source_label f.source;
  description = or_null f.description;
  exposed_data = f.exposed_data;
}
