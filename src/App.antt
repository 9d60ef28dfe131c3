-- ===== src/App.antt =====
-- The guard of the routes, `AuthGuard` of frontend/src/App.tsx.
pub mod Routes
use socblitz.Common.{Bool, true, false, Option, none, some, is_some, String, ◌≡◌, arith}
use socblitz.Api.{
  AuthState, usable, Call, request, authorize, clear_auth, on_response_error, ApiError, to_login,
}

-- The page behind a route is shown, or the browser is sent to the sign-in page.
pub data Shown : Type 0 where
  children : Shown
  sign_in_page : Shown

abbrev guarded : Option String → Shown
guarded none = sign_in_page
guarded (some token) = children

-- `if (!token) return <Navigate to="/login" replace />`
unfoldable pub auth_guard : AuthState → Shown
auth_guard s = guarded (usable s.token)

abbrev pub shows : Shown → Bool
shows children = true
shows sign_in_page = false

-- The guard lets a user through exactly when the requests of the client carry a token.
pub auth_guard-authorize :
    (s : AuthState) (c : Call) → shows (auth_guard s) ≡ is_some (authorize s (request c)).bearer
unfolding auth_guard authorize
auth_guard-authorize s c = ground arith

-- When the response interceptor sends the browser to the sign-in page, the guard of every route
-- sends it there too: the store that is left holds no token.
pub auth_guard-on_response_error :
    (s : AuthState) (err : ApiError)
    → (on_response_error s err).1 ≡ to_login
    → auth_guard (on_response_error s err).0 ≡ sign_in_page
unfolding auth_guard on_response_error clear_auth
auth_guard-on_response_error s err h = ground arith
