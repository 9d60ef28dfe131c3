-- ===== src/TimeRange/Laws.antt =====
-- What the resolved range is for the relative presets.
use socblitz.Common.{ℕ, ◌-◌, ◌*◌, ◌≤◌, String, ◌≡◌, ◌≢◌, Option, none, some, eq_iff, arith}
use socblitz.TimeRange.{TimeRange, from, until, change, preset_hours, range_to_params}

preset_hours_bounds : (v : String) → (1 ≤ preset_hours v) × (preset_hours v ≤ 720)
unfolding preset_hours
preset_hours_bounds v = ground arith

module _ (iso_of : String → Option String) (iso_at : ℕ → String) where
  -- A preset other than the custom range never throws, sends no end, and sends as its start an
  -- instant between one hour and thirty days before now (from 1970 on), which depends on the
  -- preset alone: limits left over from a custom range are not sent.
  pub relative-range :
      (now : ℕ) (r : TimeRange)
      → r.preset ≢ "custom"
      → (hours : ℕ) × (1 ≤ hours)
        × (hours ≤ 720)
        × ((start stop : Option String)
            → range_to_params iso_of iso_at now (record r { start = start; stop = stop })
              ≡ some (record { start = some (iso_at (now - hours * 3600000)); stop = none }))
  unfolding range_to_params
  relative-range now r h = (
    preset_hours r.preset,
    (preset_hours_bounds r.preset).0,
    (preset_hours_bounds r.preset).1,
    λ start stop. ground (arith, eq_iff r.preset "custom"),
  )

  -- The handlers of the two date inputs take effect only in a custom range: under any other preset
  -- the request stays as it is.
  pub change-relative :
      (now : ℕ) (r : TimeRange) (s : String)
      → r.preset ≢ "custom"
      → (range_to_params iso_of iso_at now (change r (from s))
          ≡ range_to_params iso_of iso_at now r)
        × (range_to_params iso_of iso_at now (change r (until s))
            ≡ range_to_params iso_of iso_at now r)
  unfolding range_to_params change
  change-relative now r s h = ground (arith, eq_iff r.preset "custom")
