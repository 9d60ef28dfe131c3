-- ===== src/Session/SignIn.antt =====
-- The address test of the response interceptor against the calls that it is meant for.
use socblitz.Common.{
  ℕ, ◌≡◌, refl, Bool, true, false, not, ◌&&◌, ◌||◌, some, List, ◌∷◌, codes, occurs, inl, inr,
  Bool-cases, eqb, if◌then◌else◌, arith,
}
use socblitz.Api.{
  Piece, render, Call, account, alerts, cases, platform, engine, intel, login, mfa_verify,
  AccountCall, AlertCall, CaseCall, PlatformCall, EngineCall, IntelCall, account_request,
  alert_request, case_request, platform_request, engine_request, intel_request, health, list_cases,
  sync_agents, engine_rules, misp_events, signed_out, request, is_sign_in, is_auth_attempt,
  AuthState, clear_auth, ApiError, stay, to_login, on_response_error,
}
use socblitz.Session.Urls.{IsPlainUrl, may_occur, may_occur_sound}

abbrev login_path : List ℕ
login_path = codes "/auth/login"

abbrev verify_path : List ℕ
verify_path = codes "/auth/mfa/verify"

absent :
    (t : List Piece) (ps : List ℕ)
    → IsPlainUrl t
    → may_occur t (b'/' ∷ ps) ≡ false
    → occurs (render t) (b'/' ∷ ps) ≡ false
absent t ps f h = ground (arith, may_occur_sound t ps f)

-- No address of the form may hold either of the two paths.
abbrev is_apart : List Piece → Bool
is_apart t = may_occur t login_path || may_occur t verify_path

-- By the addresses of the calls, one by one.
account-is_apart :
    (c : AccountCall) → is_sign_in (account c) ≡ false → is_apart (account_request c).url ≡ false
unfolding account_request may_occur
account-is_apart (login _ _) h = cc
account-is_apart (mfa_verify _ _) h = cc
account-is_apart _ h = refl

alerts-is_apart : (c : AlertCall) → is_apart (alert_request c).url ≡ false
unfolding alert_request may_occur
alerts-is_apart health = refl
alerts-is_apart _ = refl

cases-is_apart : (c : CaseCall) → is_apart (case_request c).url ≡ false
unfolding case_request may_occur
cases-is_apart (list_cases _) = refl
cases-is_apart _ = refl

platform-is_apart : (c : PlatformCall) → is_apart (platform_request c).url ≡ false
unfolding platform_request may_occur
platform-is_apart sync_agents = refl
platform-is_apart _ = refl

engine-is_apart : (c : EngineCall) → is_apart (engine_request c).url ≡ false
unfolding engine_request may_occur
engine-is_apart engine_rules = refl
engine-is_apart _ = refl

intel-is_apart : (c : IntelCall) → is_apart (intel_request c).url ≡ false
unfolding intel_request may_occur
intel-is_apart misp_events = refl
intel-is_apart _ = refl

call-is_apart : (c : Call) → is_sign_in c ≡ false → is_apart (request c).url ≡ false
unfolding request
call-is_apart (account c) h = account-is_apart c h
call-is_apart (alerts c) h = alerts-is_apart c
call-is_apart (cases c) h = cases-is_apart c
call-is_apart (platform c) h = platform-is_apart c
call-is_apart (engine c) h = engine-is_apart c
call-is_apart (intel c) h = intel-is_apart c

other-is_auth_attempt :
    (c : Call)
    → IsPlainUrl (request c).url
    → is_sign_in c ≡ false
    → is_auth_attempt (render (request c).url) ≡ false
unfolding is_auth_attempt
other-is_auth_attempt c plain h = ground (
  arith,
  call-is_apart c h,
  absent (request c).url (codes "auth/login") plain,
  absent (request c).url (codes "auth/mfa/verify") plain,
)

sign_in-is_auth_attempt :
    (c : Call) → is_sign_in c ≡ true → is_auth_attempt (render (request c).url) ≡ true
unfolding is_auth_attempt request
sign_in-is_auth_attempt (account (login _ _)) h = refl
sign_in-is_auth_attempt (account (mfa_verify _ _)) h = refl
sign_in-is_auth_attempt (account _) h = cc
sign_in-is_auth_attempt _ h = cc

-- Of all the calls of the client, with values that hold no slash put into the address, exactly
-- the two sign-in calls have an address that the response interceptor takes for a sign-in.
pub is_auth_attempt-request :
    (c : Call)
    → IsPlainUrl (request c).url
    → is_auth_attempt (render (request c).url) ≡ is_sign_in c
is_auth_attempt-request c plain = elim (Bool-cases (is_sign_in c)) [
  | inl e ↦ rw e (sign_in-is_auth_attempt c e)
  | inr e ↦ rw e (other-is_auth_attempt c plain e)
]

abbrev failed : Call → ℕ → ApiError
failed c status = record { url = some (render (request c).url); status = some status }

-- A call other than the two sign-in calls, with values that hold no slash put into its address,
-- that is answered by 401 signs the user out and sends the browser to the sign-in page; any other
-- status, and any failure of a sign-in call, leaves the store and the page alone.
pub on_response_error-call :
    (s : AuthState) (c : Call) (status : ℕ)
    → IsPlainUrl (request c).url
    → on_response_error s (failed c status)
      ≡ (if eqb status 401 && not (is_sign_in c) then (signed_out, to_login) else (s, stay))
unfolding on_response_error clear_auth signed_out
on_response_error-call s c status plain = rw (is_auth_attempt-request c plain) refl
