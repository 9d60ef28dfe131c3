-- ===== src/Session/Browser.antt =====
-- The parts of the program that share the store of the signed-in user, in one browser: the sign-in page,
-- the frame of the other pages, the response interceptor, and the addresses that they lead to. Which part
-- is shown is left open, so an event may come at any time; that only adds runs.
pub mod Token
use socblitz.Common.{ℕ, String, Bool, true, false, ◌==◌, Option, some, List, [], ◌∷◌, if◌then◌else◌}
use socblitz.Api.{
  AuthState, Call, request, render, ApiError, on_response_error, Redirect, stay, to_login,
}
use socblitz.Ui.{Effect, navigate}
use socblitz.Login as SignIn
use socblitz.Layout as Frame

-- The field `auth` of the sign-in page is the store that all parts share.
pub record Browser : Type 0 where
  pub address : String
  pub login : SignIn.LoginPage
  pub is_open : Bool

pub data Event : Type 0 where
  at_login : SignIn.Event → Event
  at_frame : Frame.Event → Event
  -- the failure of a call, with the status of the response if there is one
  call_failed : Call → (status : Option ℕ) → Event
  visit : (address : String) → Event

-- the page is loaded: the browser kept nothing but the store
unfoldable pub load : AuthState → String → Browser
load auth address = record { address = address; login = SignIn.start auth; is_open = true }

-- the address that the effects lead to
abbrev leads : String → List Effect → String
leads address [] = address
leads address (navigate next ∷ fs) = leads next fs
leads address (_ ∷ fs) = leads address fs

-- On another address the sign-in page starts anew, but a call that it awaits goes on.
unfoldable pub move : String → Browser → Browser
move next b = if next == b.address then b else record b {
  address = next;
  login = record (SignIn.start b.login.auth) { waiting = b.login.waiting };
}

abbrev pub error_of : Call → Option ℕ → ApiError
error_of c status = record { url = some (render (request c).url); status = status }

-- `window.location.href = '/login'` loads the page again
abbrev redirected : Browser → AuthState × Redirect → Browser
redirected b (auth, stay) = record b { login = record b.login { auth = auth } }
redirected b (auth, to_login) = load auth "/login"

after_login : Browser → SignIn.LoginPage × List Effect → Browser
after_login b (p, fs) = move (leads b.address fs) (record b { login = p })

after_frame : Browser → Frame.Layout × List Effect → Browser
after_frame b (l, fs) =
    move (leads b.address fs)
      (record b { is_open = l.is_open; login = record b.login { auth = l.auth } })

unfoldable pub step : Browser → Event → Browser
unfolding after_login after_frame move load
step b (at_login e) = after_login b (SignIn.act b.login e)
step b (at_frame e) =
    after_frame b (Frame.act (record { is_open = b.is_open; auth = b.login.auth }) e)
step b (call_failed c status) = redirected b (on_response_error b.login.auth (error_of c status))
step b (visit address) = move address b

unfoldable pub run : Browser → List Event → Browser
run b [] = b
run b (e ∷ es) = run (step b e) es
