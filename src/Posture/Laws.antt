-- ===== src/Posture/Laws.antt =====
-- The bounds of the threat level, and its order.
use socblitz.Common.{
  ℕ, ◌*◌, ◌≤◌, String, ◌≡◌, refl, false, ◌≢◌, ◌==◌, if◌then◌else◌, arith, Bool-cases, inl, inr, eqb,
}
use socblitz.Posture.{Percent, score, exceeds, get_threat_level}

-- The percentage lies between 8 and 95, so the arc of the gauge is never empty and never full.
pub get_threat_level-pct :
    (crit high total : ℕ)
    → (8 * (get_threat_level crit high total).pct.den ≤ (get_threat_level crit high total).pct.num)
      × ((get_threat_level crit high total).pct.num
          ≤ 95 * (get_threat_level crit high total).pct.den)
unfolding get_threat_level
get_threat_level-pct crit high total = ground arith

-- the place of a label in the order Normal, Guarded, Elevated, Critical
abbrev pub rank : String → ℕ
rank label =
    if label == "Critical"
    then 3
    else if label == "Elevated"
    then 2
    else if label == "Guarded"
    then 1
    else 0

-- the rank, read off the score
abbrev rank_of_score : Percent → ℕ
rank_of_score p =
    if exceeds p 60 then 3 else if exceeds p 30 then 2 else if exceeds p 10 then 1 else 0

rank-get_threat_level :
    (crit high total : ℕ)
    → total ≢ 0
    → rank (get_threat_level crit high total).label ≡ rank_of_score (score crit high total)
unfolding get_threat_level
rank-get_threat_level crit high total h =
    let z : eqb total 0 ≡ false = ground arith in
    rw z (elim (Bool-cases (exceeds (score crit high total) 60)) [
      | inl e ↦ rw e refl
      | inr e ↦ rw e (elim (Bool-cases (exceeds (score crit high total) 30)) [
        | inl f ↦ rw f refl
        | inr f ↦ rw f (elim (Bool-cases (exceeds (score crit high total) 10)) [
          | inl g ↦ rw g refl
          | inr g ↦ rw g refl
        ])
      ])
    ])

rank_of_score-monotone :
    (p q : Percent) → p.den ≡ q.den → p.num ≤ q.num → rank_of_score p ≤ rank_of_score q
rank_of_score-monotone p q d n = ground arith

-- More critical and high alerts among the same number of alerts never lower the level.
pub get_threat_level-monotone :
    (crit crit' high high' total : ℕ)
    → crit ≤ crit'
    → high ≤ high'
    → total ≢ 0
    → rank (get_threat_level crit high total).label
      ≤ rank (get_threat_level crit' high' total).label
unfolding score
get_threat_level-monotone crit crit' high high' total c h t = omega (
  arith,
  rank-get_threat_level crit high total t,
  rank-get_threat_level crit' high' total t,
  rank_of_score-monotone (score crit high total) (score crit' high' total) refl (omega arith),
)
