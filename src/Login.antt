-- ===== src/Login.antt =====
-- The sign-in page, frontend/src/pages/Login.tsx, with the store that it fills. An awaited call is
-- two events: the submission, and the reply or the failure that the server sends later.
pub mod Trace
use socblitz.Common.{
  ℕ, String, Bool, true, false, not, ◌||◌, Option, none, some, List, [], ◌∷◌, leb, eqb, truthy,
  or_text, trim, includes, if◌then◌else◌,
}
use socblitz.Api.{AuthState, set_auth, account, login, mfa_verify}
use socblitz.Ui.{
  Part, say, number, Effect, send, toast_error, navigate, success, failure, Detail, no_detail, text,
  detail_or,
}

-- What is awaited, with the e-mail address that the closure of the handler has captured.
pub data Waiting : Type 0 where
  for_login : (email : String) → Waiting
  for_verify : (email : String) → Waiting

pub record LoginPage : Type 0 where
  pub auth : AuthState
  pub email : String
  pub password : String
  pub loading : Bool
  pub mfa_token : Option String
  pub code : String
  pub waiting : Option Waiting

-- The data of a successful reply: a request for the second factor, or the grant.
pub record Grant : Type 0 where
  pub access_token : String
  pub user_id : String
  pub role : String
  pub full_name : String

pub data Reply : Type 0 where
  mfa_required : (mfa_token : String) → Reply
  granted : Grant → Reply

-- What the handlers read of a failure: no response (`timed_out` for the code ECONNABORTED), or the
-- status and detail of one.
pub data Failure : Type 0 where
  timed_out : Failure
  unreachable : Failure
  refused : (status : ℕ) → Detail → Failure

pub data Event : Type 0 where
  type_email : String → Event
  type_password : String → Event
  type_code : String → Event
  submit_login : Event
  submit_code : Event
  back : Event
  login_reply : Reply → Event
  verify_reply : Grant → Event
  fail : Failure → Event

unfoldable pub start : AuthState → LoginPage
start auth = record {
  auth = auth;
  email = "";
  password = "";
  loading = false;
  mfa_token = none;
  code = "";
  waiting = none;
}

finish_login : LoginPage → String → Grant → LoginPage × List Effect
finish_login p email d = (
  record p { auth = set_auth d.access_token d.user_id d.role (or_text d.full_name email) p.auth },
  success "Authenticated" ∷ navigate "/dashboard" ∷ [],
)

-- `typeof data?.detail === 'string' ? data.detail : ''`
abbrev detail_text : Detail → String
detail_text (text s) = s
detail_text _ = ""

abbrev status_message : ℕ → List Part
status_message status =
    if eqb status 422
    then say "Enter both your email address and password" ∷ []
    else if eqb status 429
    then say "Too many attempts — wait a few minutes and try again" ∷ []
    else if leb 500 status
    then say "Server error (HTTP "
      ∷ number status
      ∷ say ") — try again or check the backend logs"
      ∷ []
    else say "Sign-in failed (HTTP " ∷ number status ∷ say ")" ∷ []

unfoldable pub login_error_message : String → Failure → List Part
login_error_message email timed_out =
    say "Server did not respond within 15 seconds — it may still be starting up, try again shortly"
    ∷ []
login_error_message email unreachable =
    say "Cannot reach the server — check that the backend is running and try again" ∷ []
login_error_message email (refused status detail) =
    if eqb status 401
    then say (or_text (detail_text detail) "Incorrect email or password")
      ∷ say (if includes email "@" then "" else " — sign in with your full email address")
      ∷ []
    else if truthy (detail_text detail)
    then say (detail_text detail) ∷ []
    else status_message status

-- `detail.includes('sign in again')`, for a text or for an array of objects
abbrev says_again : Detail → Bool
says_again (text s) = includes s "sign in again"
says_again _ = false

abbrev detail_of : Failure → Detail
detail_of (refused _ detail) = detail
detail_of _ = no_detail

-- The second step is shown: `mfaToken` is neither null nor empty.
abbrev pub second_step : Option String → Option String
second_step none = none
second_step (some token) = if truthy token then some token else none

-- `handleLogin` up to its `await`
login_sent : LoginPage → LoginPage × List Effect
login_sent p = (
  record p { loading = true; waiting = some (for_login p.email) },
  send (account (login p.email p.password)) ∷ [],
)

-- `handleMfaVerify` up to its `await`
verify_sent : LoginPage → String → LoginPage × List Effect
verify_sent p token = (
  record p { loading = true; waiting = some (for_verify p.email) },
  send (account (mfa_verify token p.code)) ∷ [],
)

-- the `finally` blocks
abbrev settled : LoginPage → LoginPage
settled p = record p { loading = false; waiting = none }

login_replied : LoginPage → String → Reply → LoginPage × List Effect
unfolding finish_login
login_replied p email (mfa_required token) = (record p { mfa_token = some token; code = "" }, [])
login_replied p email (granted d) = finish_login p email d

login_failed : LoginPage → String → Failure → LoginPage × List Effect
login_failed p email e = (p, toast_error (login_error_message email e) ∷ [])

verify_failed : LoginPage → Failure → LoginPage × List Effect
verify_failed p e =
    if says_again (detail_of e)
    then (record p { mfa_token = none }, failure "Session expired — sign in again" ∷ [])
    else (p, toast_error (detail_or (detail_of e) "Invalid verification code") ∷ [])

abbrev submit_code_at : LoginPage → Option String → LoginPage × List Effect
submit_code_at p none = (p, [])
submit_code_at p (some token) =
    if p.loading || not (truthy (trim p.code)) then (p, []) else verify_sent p token

abbrev submit_login_at : LoginPage → Option String → LoginPage × List Effect
submit_login_at p none = if p.loading then (p, []) else login_sent p
submit_login_at p (some _) = (p, [])

-- A reply comes only while its call is awaited.
abbrev login_replied_at : LoginPage → Option Waiting → Reply → LoginPage × List Effect
login_replied_at p (some (for_login email)) r = login_replied (settled p) email r
login_replied_at p _ r = (p, [])

abbrev verify_replied_at : LoginPage → Option Waiting → Grant → LoginPage × List Effect
verify_replied_at p (some (for_verify email)) d = finish_login (settled p) email d
verify_replied_at p _ d = (p, [])

abbrev failed_at : LoginPage → Option Waiting → Failure → LoginPage × List Effect
failed_at p none e = (p, [])
failed_at p (some (for_login email)) e = login_failed (settled p) email e
failed_at p (some (for_verify email)) e = verify_failed (settled p) e

-- A form that is not shown, or whose button is disabled, is not submitted.
unfoldable pub act : LoginPage → Event → LoginPage × List Effect
unfolding login_sent verify_sent login_replied login_failed finish_login verify_failed
act p (type_email s) = (record p { email = s }, [])
act p (type_password s) = (record p { password = s }, [])
act p (type_code s) = (record p { code = s }, [])
act p submit_login = submit_login_at p (second_step p.mfa_token)
act p submit_code = submit_code_at p (second_step p.mfa_token)
act p back = (record p { mfa_token = none; code = "" }, [])
act p (login_reply r) = login_replied_at p p.waiting r
act p (verify_reply d) = verify_replied_at p p.waiting d
act p (fail e) = failed_at p p.waiting e

-- The state after a sequence of events.
unfoldable pub run : LoginPage → List Event → LoginPage
run p [] = p
run p (e ∷ es) = run (act p e).0 es
