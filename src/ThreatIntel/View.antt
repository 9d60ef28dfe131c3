-- ===== src/ThreatIntel/View.antt =====
-- What the threat intelligence page shows, frontend/src/pages/ThreatIntel.tsx: the answer of a lookup and the
-- table of recent events.
pub mod Spans
use Prim.Native.String as Text
use socblitz.Common.{
  ℕ, suc, String, Bool, true, false, ◌==◌, Option, none, some, List, [], ◌∷◌, ◌++◌, map, length,
  or_else, or_text, or_null, truthy, is_some, if◌then◌else◌,
}
use socblitz.Common.Json.{Json, Fields}
use socblitz.Ui.{Part, say, number}
use socblitz.ThreatIntel.{
  Lookup, verdict_label, rows, format_value, tags, IocType, ip, domain, hash, url, email,
}

-- `IOC_META[type].label`
abbrev pub ioc_label : IocType → String
ioc_label ip = "IP address"
ioc_label domain = "Domain"
ioc_label hash = "File hash"
ioc_label url = "URL"
ioc_label email = "Email"

-- `VERDICT_COLOR[v]`
unfoldable pub verdict_color : String → Option String
verdict_color v =
    if v == "malicious"
    then some "#f43f5e"
    else if v == "suspicious"
    then some "#f97316"
    else if v == "clean"
    then some "#22c55e"
    else if v == "unknown"
    then some "#94a3b8"
    else none

-- the icon beside the verdict
pub data Icon : Type 0 where
  check_circle x_circle alert_triangle : Icon

unfoldable pub verdict_icon : String → Icon
verdict_icon v =
    if v == "clean" then check_circle else if v == "malicious" then x_circle else alert_triangle

abbrev confidence_text : Option ℕ → List Part
confidence_text none = []
confidence_text (some n) = say "Confidence " ∷ number n ∷ say "/100" ∷ []

-- `xs.join(', ')`
abbrev pub joined_texts : List String → String
joined_texts [] = ""
joined_texts (s ∷ []) = s
joined_texts (s ∷ t ∷ ts) = Text.◌++◌ s (Text.◌++◌ ", " (joined_texts (t ∷ ts)))

abbrev skipped_note : List String → List String
skipped_note [] = []
skipped_note (s ∷ ss) =
    Text.◌++◌ "Not checked (no API key configured): " (joined_texts (s ∷ ss)) ∷ []

-- a row of the table of sources: the name stands in the first row of its source, over that many rows
pub record SourceRow : Type 0 where
  pub name : Option (String × ℕ)
  pub field : String
  pub is_error : Bool
  pub value : List Part

abbrev cells : Option (String × ℕ) → String × Json → SourceRow
cells name (field, v) = record {
  name = name;
  field = field;
  is_error = field == "error";
  value = format_value v;
}

abbrev spanned : String → List (String × Json) → List SourceRow
spanned name [] = []
spanned name (r ∷ rs) = cells (some (name, suc (length rs))) r ∷ map (cells none) rs

unfoldable pub source_table : List (String × Fields) → List SourceRow
unfolding rows format_value
source_table [] = []
source_table ((name, data_) ∷ rest) = spanned name (rows data_) ++ source_table rest

abbrev sources_of : Option (List (String × Fields)) → List (String × Fields)
sources_of none = []
sources_of (some sources) = sources

-- the panel with the answer
pub record Panel : Type 0 where
  pub verdict : String
  pub icon : Icon
  pub color : String
  pub border : String
  pub confidence : List Part
  pub is_unknown : Bool
  pub notes : List String
  pub reasons : List String
  pub table : List SourceRow

unfoldable pub panel : Lookup → Panel
unfolding verdict_label verdict_color verdict_icon source_table
panel r = record {
  verdict = verdict_label r;
  icon = verdict_icon (verdict_label r);
  color = or_else (verdict_color (verdict_label r)) "var(--text-1)";
  border = or_else (verdict_color (verdict_label r)) "var(--line)";
  confidence = confidence_text r.confidence;
  is_unknown = verdict_label r == "unknown";
  notes = skipped_note r.skipped;
  reasons = r.reasons;
  table = source_table (sources_of r.sources);
}

-- what the table of events reads of one, which may stand in a field `Event`; a missing text is ""
pub record Recent : Type 0 where
  pub id : Option String
  pub info : String
  pub org : String
  pub tag_names : List String
  pub date : String

abbrev tags_cell : List String → String
tags_cell [] = "—"
tags_cell (t ∷ ts) = joined_texts (t ∷ ts)

-- the cells of a row
unfoldable pub recent_row : Recent → List String
recent_row e =
    or_else e.id "—"
    ∷ or_text e.info "—"
    ∷ or_text e.org "—"
    ∷ tags_cell (tags e.tag_names)
    ∷ or_text e.date "—"
    ∷ []
