-- ===== src/Session.antt =====
-- What the interceptors of the API client, frontend/src/stores/auth.ts, do to its calls.
mod Urls
pub mod SignIn
pub mod Timeouts
pub mod Cache
pub mod Refresh
pub mod Browser
