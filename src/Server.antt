-- ===== src/Server.antt =====
-- The endpoints of the server, backend/app/api/v1/router.py, whose answers the modelled pages depend on.
pub mod Mfa
pub mod UpdateCase
pub mod Tokens
pub mod Walk
pub mod Roles
use socblitz.Common.{ℕ, String}

-- what an endpoint answers: a value, or the status and the detail of an `HTTPException`
pub data Answer (A : Type 0) : Type 0 where
  reply : A → Answer A
  raise : (status : ℕ) → (detail : String) → Answer A
