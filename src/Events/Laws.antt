-- ===== src/Events/Laws.antt =====
-- The level bands, their counts and the filter on them.
use socblitz.Common.{
  ℕ, ◌+◌, ◌≤◌, ◌<◌, String, ◌≡◌, refl, ◌≢◌, ◌↔◌, ◌⊎◌, inl, inr, false, ◌==◌, eq_iff, List, [], ◌∷◌,
  length, All, filter-true, filter-All, All-map, eq_of_==, if◌then◌else◌, arith,
}
use socblitz.Events.{EventRow, band_for, with_band, filtered, band_count}

-- The keys of the bands are four different texts.
ne_keys : (s t : String) → (s == t) ≡ false → s ≢ t
ne_keys s t h = ground (arith, eq_iff s t)

-- A level of 12 and more is critical, from 8 high, from 4 medium, and below that low.
pub band_for-cases :
    (level : ℕ)
    → (((band_for level).key ≡ "critical") ↔ (12 ≤ level))
      × (((band_for level).key ≡ "high") ↔ ((8 ≤ level) × (level < 12)))
      × (((band_for level).key ≡ "medium") ↔ ((4 ≤ level) × (level < 8)))
      × (((band_for level).key ≡ "low") ↔ (level < 4))
unfolding band_for
band_for-cases level = ground (
  arith,
  ne_keys "critical" "high" refl,
  ne_keys "critical" "medium" refl,
  ne_keys "critical" "low" refl,
  ne_keys "high" "medium" refl,
  ne_keys "high" "low" refl,
  ne_keys "medium" "low" refl,
)

abbrev indicator : String → String → ℕ
indicator s key = if s == key then 1 else 0

band_count-cons :
    (key : String) (e : EventRow) (es : List EventRow)
    → band_count key (e ∷ es) ≡ indicator (band_for e.level).key key + band_count key es
unfolding band_count with_band
band_count-cons key e es = ground arith

-- A level has one of the four keys.
key_cases :
    (level : ℕ)
    → ((band_for level).key ≡ "critical")
      ⊎ (((band_for level).key ≡ "high")
          ⊎ (((band_for level).key ≡ "medium") ⊎ ((band_for level).key ≡ "low")))
unfolding band_for
key_cases level = ground arith

abbrev indicators : String → ℕ
indicators s =
    indicator s "critical" + indicator s "high" + indicator s "medium" + indicator s "low"

indicators-key : (level : ℕ) → indicators (band_for level).key ≡ 1
indicators-key level = elim (key_cases level) [
  | inl e ↦ rw e refl
  | inr (inl e) ↦ rw e refl
  | inr (inr (inl e)) ↦ rw e refl
  | inr (inr (inr e)) ↦ rw e refl
]

-- The counts that the four buttons show add up to the number of events: each is in one band.
pub band_count-sum :
    (events : List EventRow)
    → band_count "critical" events
        + band_count "high" events
        + band_count "medium" events
        + band_count "low" events
      ≡ length events
band_count-sum [] = unfold band_count with_band in refl
band_count-sum (e ∷ es) = omega (
  arith,
  indicators-key e.level,
  band_count-cons "critical" e es,
  band_count-cons "high" e es,
  band_count-cons "medium" e es,
  band_count-cons "low" e es,
  band_count-sum es,
)

-- With the band of a button as many events are shown as the button counts, and each of them is in
-- that band; with no band every event is shown.
pub filtered_lem :
    (events : List EventRow) (band : String)
    → band ≢ ""
    → (length (filtered band events) ≡ band_count band events)
      × All (λ e. e.1 ≡ band) (filtered band events)
      × (filtered "" events ≡ with_band events)
unfolding filtered band_count
filtered_lem events band h =
    let e : (band == "") ≡ false = ground (arith, eq_iff band "") in
    rw e (
      refl,
      All-map (λ x. eq_of_== x.1 band) _ (filter-All (λ x. x.1 == band) (with_band events)),
      filter-true (with_band events),
    )
