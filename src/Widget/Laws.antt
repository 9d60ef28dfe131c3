-- ===== src/Widget/Laws.antt =====
-- The scale of the heat map.
use socblitz.Common.{
  String, ◌≤◌, ◌<◌, none, List, [], ◌∷◌, eqb, or_else, Bool-cases, inl, inr, arith,
}
use socblitz.Widget.{Point, Heat, heat, heat_from, heat_step, cell_value, cell_key, intensity}

-- no cell holds more than the greatest value
abbrev IsScaled : Heat → Type 0
IsScaled h = (k : String) → or_else (h.by_cell k) 0 ≤ h.max_val

heat_step-IsScaled : (h : Heat) (d : Point) → IsScaled h → IsScaled (heat_step h d)
unfolding heat_step
heat_step-IsScaled h d s k = ground (arith, s k)

heat_from-IsScaled : (h : Heat) (ds : List Point) → IsScaled h → IsScaled (heat_from h ds)
unfolding heat_from
heat_from-IsScaled h [] s = s
heat_from-IsScaled h (d ∷ ds) s = heat_from-IsScaled (heat_step h d) ds (heat_step-IsScaled h d s)

intensity-IsScaled :
    (h : Heat) (y x : String)
    → IsScaled h
    → ((intensity h y x).num ≤ (intensity h y x).den) × (0 < (intensity h y x).den)
unfolding intensity cell_value
intensity-IsScaled h y x s = elim (Bool-cases (eqb h.max_val 0)) [
  | inl e ↦ rw e (omega arith, omega arith)
  | inr e ↦ rw e (s (cell_key y x), ground arith)
]

-- The intensity of every cell of the heat map is a proper fraction: it is at most 1, and what it is divided
-- by is never 0.
pub heat-intensity :
    (ds : List Point) (y x : String)
    → ((intensity (heat ds) y x).num ≤ (intensity (heat ds) y x).den)
      × (0 < (intensity (heat ds) y x).den)
unfolding heat
heat-intensity ds y x =
    intensity-IsScaled (heat ds) y x
      (heat_from-IsScaled (record { by_cell = λ _. none; max_val = 0 }) ds (λ _. omega arith))
