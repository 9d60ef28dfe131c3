-- ===== src/Events.antt =====
-- The event page, frontend/src/pages/Events.tsx: level bands, the filter on them and the request.
pub mod Laws
pub mod View
use socblitz.Common.{
  ℕ, String, Bool, not, ◌||◌, Option, none, some, List, [], ◌∷◌, map, ◌==◌, leb, truthy, filter,
  find?, length, or_else, if◌then◌else◌,
}
use socblitz.Common.Json.{Json, Fields, num, str, end, field}
use socblitz.Api.{Call, alerts, list_events}
use socblitz.TimeRange.{RangeParams, range_fields}

pub record Band : Type 0 where
  pub key : String
  pub label : String
  pub min : ℕ

abbrev band_of : String → String → ℕ → Band
band_of key label min = record { key = key; label = label; min = min }

abbrev low : Band
low = band_of "low" "Low" 0

abbrev pub level_bands : List Band
level_bands =
    band_of "critical" "Critical" 12
    ∷ band_of "high" "High" 8
    ∷ band_of "medium" "Medium" 4
    ∷ low
    ∷ []

-- `find(…) ?? LEVEL_BANDS[LEVEL_BANDS.length - 1]`
unfoldable pub band_for : ℕ → Band
band_for level = or_else (find? (λ b. leb b.min level) level_bands) low

-- An event as the page reads it: the band depends on the level alone.
pub record EventRow : Type 0 where
  pub id : String
  pub level : ℕ

unfoldable pub with_band : List EventRow → List (EventRow × String)
with_band events = map (λ e. (e, (band_for e.level).key)) events

unfoldable pub filtered : String → List EventRow → List (EventRow × String)
filtered band events = filter (λ e. not (truthy band) || e.1 == band) (with_band events)

-- `counts[key]`
unfoldable pub band_count : String → List EventRow → ℕ
band_count key events = length (filter (λ e. e.1 == key) (with_band events))

-- `onClick={() => setBand(active ? '' : b.key)}`
unfoldable pub toggle : String → String → String
toggle band key = if band == key then "" else key

-- The request, for the resolved range: `{ ...range, size: 500, ...(q ? { q } : {}) }`.
unfoldable pub events_call : RangeParams → String → Call
events_call range q = alerts (
    list_events (
      some (
        range_fields range
          (field "size" (num 500) (if truthy q then field "q" (str q) end else end)))))
