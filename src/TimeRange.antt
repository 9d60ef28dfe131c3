-- ===== src/TimeRange.antt =====
-- The time range shared by the alert and event pages, frontend/src/components/TimeRangeFilter.tsx.
-- `Date` belongs to the platform, and how it reads a local time depends on the zone: what
-- `new Date(text).toISOString()` gives (nothing where it throws) and what
-- `new Date(milliseconds).toISOString()` gives are parameters.
pub mod Laws
use mathlib.Core.Option
use socblitz.Common.{
  ℕ, ◌-◌, ◌*◌, String, Option, none, some, List, [], ◌∷◌, ◌==◌, find?, or_else, truthy,
  if◌then◌else◌,
}
use socblitz.Common.Json.{Fields, str, end, field}

pub record TimeRange : Type 0 where
  pub preset : String
  pub start : Option String
  pub stop : Option String

pub record Preset : Type 0 where
  pub value : String
  pub label : String
  pub hours : Option ℕ

abbrev preset : String → String → Option ℕ → Preset
preset value label hours = record { value = value; label = label; hours = hours }

unfoldable pub default_range : TimeRange
default_range = record { preset = "24h"; start = none; stop = none }

abbrev pub presets : List Preset
presets =
    preset "1h" "Last hour" (some 1)
    ∷ preset "6h" "Last 6 hours" (some 6)
    ∷ preset "24h" "Last 24 hours" (some 24)
    ∷ preset "7d" "Last 7 days" (some 168)
    ∷ preset "30d" "Last 30 days" (some 720)
    ∷ preset "custom" "Custom range" none
    ∷ []

-- `PRESETS.find(…)?.hours ?? 24`
abbrev hours_or_24 : Option Preset → ℕ
hours_or_24 none = 24
hours_or_24 (some p) = or_else p.hours 24

unfoldable pub preset_hours : String → ℕ
preset_hours v = hours_or_24 (find? (λ p. p.value == v) presets)

-- The query parameters; an absent limit is left out.
pub record RangeParams : Type 0 where
  pub start : Option String
  pub stop : Option String

abbrev limit_field : String → Option String → Fields → Fields
limit_field key none fs = fs
limit_field key (some s) fs = field key (str s) fs

-- `...rangeToParams(r)` before the other fields of the request
abbrev pub range_fields : RangeParams → Fields → Fields
range_fields p rest = limit_field "start" p.start (limit_field "end" p.stop rest)

module _ (iso_of : String → Option String) (iso_at : ℕ → String) where
  -- `if (limit) p.limit = new Date(limit).toISOString()`; `none` is the exception.
  abbrev custom_limit : Option String → Option (Option String)
  custom_limit none = some none
  custom_limit (some s) = if truthy s then Option.map some (iso_of s) else some none

  -- Both limits, unless one throws.
  abbrev both_limits : Option (Option String) → Option (Option String) → Option RangeParams
  both_limits (some a) (some b) = some (record { start = a; stop = b })
  both_limits _ _ = none

  -- `now` is `Date.now()`, at least 30 days after 1970; `none` is the exception of an invalid date.
  unfoldable pub range_to_params : ℕ → TimeRange → Option RangeParams
  unfolding preset_hours
  range_to_params now r =
      if r.preset == "custom"
      then both_limits (custom_limit r.start) (custom_limit r.stop)
      else some
          (record { start = some (iso_at (now - preset_hours r.preset * 3600000)); stop = none })

-- The handlers of the filter's three inputs.
pub data Change : Type 0 where
  pick : (preset : String) → Change
  from : (start : String) → Change
  until : (stop : String) → Change

unfoldable pub change : TimeRange → Change → TimeRange
change r (pick v) = record r { preset = v }
change r (from s) = record r { start = some s }
change r (until s) = record r { stop = some s }
