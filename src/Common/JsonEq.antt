-- ===== src/Common/JsonEq.antt =====
-- JSON values can be told apart.
use Prim.Native.String.{String}
use native.Mathlib.Omega.{arith}
use native.Mathlib.Decide.{ℕ_discrete}
use mathlib.Core.Logic.{inl, inr}
use text.Mathlib.Text.{◌==◌}
use text.Mathlib.TextEquality.{eq_iff}
use socblitz.Common.Tests.{Bool-cases}
use socblitz.Common.Json.{Json}

pub String-discrete : Discrete String
String-discrete s t = elim (Bool-cases (s == t)) [
  | inl e ↦ yes ((eq_iff s t).0 e)
  | inr e ↦ no (λ p. ground (arith, e, (eq_iff s t).1 p))
]

pub Json-discrete : Discrete Json
Json-discrete = hlevel (ℕ_discrete, String-discrete)
