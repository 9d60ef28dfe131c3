-- ===== src/Api.antt =====
-- The API client of frontend/src/stores/auth.ts: the requests that its helpers build, the store of
-- the signed-in user, and the two interceptors that tie them together.
mod Http
mod Account
mod Alerts
mod Cases
mod Platform
mod Engine
mod Intel
mod Calls
mod Store
mod Client
pub use Http.*
pub use Account.*
pub use Alerts.*
pub use Cases.*
pub use Platform.*
pub use Engine.*
pub use Intel.*
pub use Calls.{Call, account, alerts, cases, platform, engine, intel, is_sign_in}
unfoldable pub use Calls.{request}
pub use Store.{AuthState}
unfoldable pub use Store.{signed_out, set_auth, clear_auth}
pub use Client.{SentRequest, ApiError, Redirect, stay, to_login, url_or_empty, is_401, usable}
unfoldable pub use Client.{authorize, is_auth_attempt, on_response_error}
unfoldable pub use Account.{account_request}
unfoldable pub use Alerts.{alert_request}
unfoldable pub use Cases.{case_request}
unfoldable pub use Platform.{platform_request}
unfoldable pub use Engine.{engine_request}
unfoldable pub use Intel.{intel_request}
