-- ===== src/Posture/View/Bar.antt =====
-- The shares of the bar, and the texts of the overview beside those of the list.
use Prim.Native.Char.{code}
use socblitz.Common.{
  ℕ, ◌+◌, ◌*◌, ◌≤◌, ◌<◌, ◌≡◌, All, map, filter, refl, String, Bool, true, false, List, [], ◌∷◌, eqb,
  eq_iff, arith, if◌then◌else◌,
}
use socblitz.Posture.Overview.{Stats, sev_order, severity_of, severity_of-le, total_of, shows_part}
use socblitz.Posture.View.{Piece, piece, severity_bar, spaced_once}
use socblitz.Alerts.View.{spaced}

-- the numerators of the widths, over the total of all alerts
abbrev pub widths : List Piece → ℕ
widths [] = 0
widths (p ∷ ps) = p.width.num + widths ps

five :
    (es : List (String × ℕ))
    → severity_of es "critical"
        + severity_of es "high"
        + severity_of es "medium"
        + severity_of es "low"
        + severity_of es "info"
      ≤ total_of es
unfolding severity_of total_of
five [] = omega arith
five ((k, n) ∷ es) = ground (
  arith,
  five es,
  eq_iff k "critical",
  eq_iff k "high",
  eq_iff k "medium",
  eq_iff k "low",
  eq_iff k "info",
  eq_iff "critical" "high",
  eq_iff "critical" "medium",
  eq_iff "critical" "low",
  eq_iff "critical" "info",
  eq_iff "high" "medium",
  eq_iff "high" "low",
  eq_iff "high" "info",
  eq_iff "medium" "low",
  eq_iff "medium" "info",
  eq_iff "low" "info",
)

-- the width is a share of the total, which is not 0, and at least half a percent
abbrev pub IsShare : ℕ → Piece → Type 0
IsShare total p = (p.width.den ≡ total) × (0 < p.width.den) × (p.width.den ≤ 2 * p.width.num)

-- the alerts of the five severities that the bar knows
abbrev pub known : Stats → ℕ
known stats =
    severity_of stats.severity "critical"
    + severity_of stats.severity "high"
    + severity_of stats.severity "medium"
    + severity_of stats.severity "low"
    + severity_of stats.severity "info"

shown-IsShare :
    (stats : Stats) (sevs : List String)
    → All (IsShare (total_of stats.severity)) (
        map (piece stats) (
          filter
            (λ sev. shows_part (severity_of stats.severity sev) (total_of stats.severity))
            sevs))
unfolding shows_part
shown-IsShare stats [] = tt
shown-IsShare stats (sev ∷ sevs) = ground (arith, shown-IsShare stats sevs)

counts : Stats → List String → ℕ
counts stats [] = 0
counts stats (sev ∷ sevs) = severity_of stats.severity sev + counts stats sevs

-- the total for each of these
totals : ℕ → List String → ℕ
totals total [] = 0
totals total (sev ∷ sevs) = total + totals total sevs

-- what is not drawn is less than half a percent
shown-counts :
    (stats : Stats) (sevs : List String)
    → 200 * counts stats sevs
      ≤ 2
          * widths (
              map (piece stats) (
                filter
                  (λ sev. shows_part (severity_of stats.severity sev) (total_of stats.severity))
                  sevs))
        + totals (total_of stats.severity) sevs
unfolding counts totals shows_part
shown-counts stats [] = omega arith
shown-counts stats (sev ∷ sevs) =
    ground (arith, shown-counts stats sevs, severity_of-le stats.severity sev)

-- Each part of the bar of severities is a share of all alerts, of at least half a percent. The parts are together
-- at most as wide as the bar, and they fall short of the share of the alerts with a known severity by at most
-- half a percent for each of the five severities.
pub severity_bar-widths :
    (stats : Stats)
    → All (IsShare (total_of stats.severity)) (severity_bar stats)
      × (widths (severity_bar stats) ≤ 100 * total_of stats.severity)
      × (200 * known stats ≤ 2 * widths (severity_bar stats) + 5 * total_of stats.severity)
unfolding severity_bar shows_part counts totals
severity_bar-widths stats = (
  shown-IsShare stats sev_order,
  ground (arith, five stats.severity),
  omega (arith, shown-counts stats sev_order),
)

-- no underscore in the text
abbrev pub has_none : String → Bool
has_none String.[] = true
has_none (String.◌∷◌ c s) = if eqb (code c) b'_' then false else has_none s

-- one underscore at most
abbrev pub has_one : String → Bool
has_one String.[] = true
has_one (String.◌∷◌ c s) = if eqb (code c) b'_' then has_none s else has_one s

spaced-has_none : (s : String) → has_none s ≡ true → spaced s ≡ s
unfolding spaced
spaced-has_none String.[] h = refl
spaced-has_none (String.◌∷◌ c s) h = ground (arith, spaced-has_none s)

-- The overview replaces the first underscore of a status, the list of alerts all of them: they show the same
-- text for every status with at most one underscore, and so for each of the statuses that the list knows.
pub spaced_once-spaced : (s : String) → has_one s ≡ true → spaced_once s ≡ spaced s
unfolding spaced_once spaced
spaced_once-spaced String.[] h = refl
spaced_once-spaced (String.◌∷◌ c s) h = ground (arith, spaced_once-spaced s, spaced-has_none s)
