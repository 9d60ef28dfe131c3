-- ===== src/Posture.antt =====
-- The threat level of the overview, `getThreatLevel` of frontend/src/pages/Dashboard.tsx. The score is
-- kept as the fraction that the source divides; its rounding to a double does not reach the
-- comparisons for the counts of alerts that a server can hold.
pub mod Laws
pub mod Overview
pub mod View
use socblitz.Common.{ℕ, Bool, zero, ◌+◌, ◌*◌, String, ltb, eqb, if◌then◌else◌}

-- a percentage, as a fraction
pub record Percent : Type 0 where
  pub num : ℕ
  pub den : ℕ

pub record ThreatLevel : Type 0 where
  pub label : String
  pub pct : Percent

abbrev whole : ℕ → Percent
whole n = record { num = n; den = 1 }

abbrev level : String → Percent → ThreatLevel
level label pct = record { label = label; pct = pct }

-- `((crit * 4 + high * 2) / (total * 4)) * 100`
unfoldable pub score : (crit high total : ℕ) → Percent
score crit high total = record { num = (crit * 4 + high * 2) * 100; den = total * 4 }

-- `score > n`
abbrev pub exceeds : Percent → ℕ → Bool
exceeds p n = ltb (n * p.den) p.num

unfoldable pub get_threat_level : (crit high total : ℕ) → ThreatLevel
unfolding score
get_threat_level crit high total =
    if eqb total 0
    then level "Normal" (whole 8)
    else if exceeds (score crit high total) 60
    then level "Critical"
        (if exceeds (score crit high total) 95 then whole 95 else score crit high total)
    else if exceeds (score crit high total) 30
    then level "Elevated" (score crit high total)
    else if exceeds (score crit high total) 10
    then level "Guarded" (score crit high total)
    else level "Normal"
        (if exceeds (score crit high total) 8 then score crit high total else whole 8)
