-- ===== src/Connectors/Laws.antt =====
-- The percentage of connectors that are online.
use native.Mathlib.Nat.{le-div_iff_mul-le, div-lt_iff_lt-mul}
use socblitz.Common.{
  ℕ, zero, suc, ◌≡◌, ◌≤◌, ◌<◌, ◌↔◌, ◌+◌, ◌*◌, ◌/◌, List, length, count-le-length, arith,
}
use socblitz.Connectors.{Connector, online, percent, pct}

-- the percentage is below 101, and from 100 on exactly where the fraction is
percent-below :
    (part total : ℕ) → 0 < total → part ≤ total → (200 * part + total) / (2 * total) < 101
percent-below part total z h = (div-lt_iff_lt-mul {k = 2 * total} (omega arith)).1 (omega arith)

percent-from :
    (part total : ℕ)
    → 0 < total
    → (100 ≤ (200 * part + total) / (2 * total)) ↔ (100 * (2 * total) ≤ 200 * part + total)
percent-from part total z = le-div_iff_mul-le {k = 2 * total} (omega arith)

percent-pos : (part total : ℕ) → 0 < total → percent part total ≡ (200 * part + total) / (2 * total)
unfolding percent
percent-pos part total z = ground arith

percent-le : (part total : ℕ) → part ≤ total → percent part total ≤ 100
unfolding percent
percent-le part zero h = omega arith
percent-le part (suc n) h =
    rw (percent-pos part (suc n) (omega arith))
      (omega (arith, percent-below part (suc n) (omega arith) h))

percent-full :
    (part total : ℕ)
    → 0 < total
    → part ≤ total
    → total < 200
    → (percent part total ≡ 100) ↔ (part ≡ total)
percent-full part total z h b =
    let below = percent-below part total z h in
    let from = percent-from part total z in
    let e = percent-pos part total z in
    (
      λ p. let u = from.0 (omega (arith, e, p)) in omega (arith, u),
      λ q. let u = from.1 (omega (arith, q)) in omega (arith, e, below, u),
    )

-- The percentage of the connectors that are online is at most 100.
pub pct-le : (cs : List Connector) → pct cs ≤ 100
unfolding pct online
pct-le cs = percent-le (online cs) (length cs) (count-le-length (λ c. c.verified) cs)

-- For one to 199 connectors, 100 percent is shown exactly when all of them are online.
pub pct-full :
    (cs : List Connector)
    → 0 < length cs
    → length cs < 200
    → (pct cs ≡ 100) ↔ (online cs ≡ length cs)
unfolding pct online
pct-full cs z b = percent-full (online cs) (length cs) z (count-le-length (λ c. c.verified) cs) b
