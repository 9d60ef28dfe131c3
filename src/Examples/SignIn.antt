-- ===== src/Examples/SignIn.antt =====
-- Examples for frontend/src/stores/auth.ts, App.tsx, pages/Login.tsx and pages/AccountSecurity.tsx.
use socblitz.Common.{
  Bool, false, true, ◌≡◌, refl, ◌≢◌, All, true, false, none, some, List, [], ◌∷◌, codes, trim,
  arith,
}
use socblitz.Api.{
  authorize, ApiError, AuthState, signed_out, Call, account, alerts, login, get_alert, request,
  render, is_auth_attempt, is_sign_in, on_response_error, stay, to_login,
}
use socblitz.Ui.{text, calls}
use socblitz.Login.{
  LoginPage, Event, type_email, type_password, type_code, submit_login, submit_code, login_reply,
  verify_reply, fail, refused, timed_out, mfa_required, granted, start, act, run,
  login_error_message,
}
use socblitz.Login.Trace.{IsDemanded, calls-IsDemanded}
use socblitz.AccountSecurity as Security
use socblitz.Session.SignIn.{is_auth_attempt-request, on_response_error-call}

abbrev signed_in : AuthState
signed_in = record {
  token = some "t1";
  user_id = some "u1";
  role = some "analyst";
  full_name = some "Ann";
}

-- a wrong password, then the right one, then the second factor
abbrev typing : List Event
typing =
    type_email "ann@soc"
    ∷ type_password "x"
    ∷ submit_login
    ∷ fail (refused 401 (text ""))
    ∷ type_password "y"
    ∷ submit_login
    ∷ login_reply (mfa_required "m1")
    ∷ type_code "123456"
    ∷ []

calls-IsDemanded_example :
    All (IsDemanded typing) (calls (act (run (start signed_out) typing) submit_code).1)
calls-IsDemanded_example = calls-IsDemanded signed_out typing submit_code

-- the verification that is sent then
verification_sent :
    calls (act (run (start signed_out) typing) submit_code).1
    ≡ account (socblitz.Api.mfa_verify "m1" "123456") ∷ []
unfolding act run start trim
verification_sent = refl

sends_code : calls (act (run (start signed_out) typing) submit_code).1 ≢ []
sends_code e = ground (arith, verification_sent)

abbrev waiting_page : LoginPage
waiting_page = record {
  auth = signed_in;
  email = "ann@soc";
  password = "x";
  loading = true;
  mfa_token = none;
  code = "";
  waiting = some (socblitz.Login.for_login "ann@soc");
}

awaits : waiting_page.waiting ≢ none
awaits e = cc

is_auth_attempt-request_example :
    is_auth_attempt (render (request (alerts (get_alert "a7"))).url) ≡ false
unfolding request
is_auth_attempt-request_example = is_auth_attempt-request (alerts (get_alert "a7")) (refl, tt)

on_response_error-call_example :
    on_response_error signed_in (record { url = some (codes "/alerts/a7"); status = some 401 })
    ≡ (signed_out, to_login)
unfolding request
on_response_error-call_example =
    on_response_error-call signed_in (alerts (get_alert "a7")) 401 (refl, tt)

abbrev refused_request : ApiError
refused_request = record { url = some (codes "/alerts/a7"); status = some 401 }

redirected : (on_response_error signed_in refused_request).1 ≡ to_login
unfolding on_response_error is_auth_attempt
redirected = refl

-- enrolling the second factor
abbrev enrolling : List (Bool × Security.Event)
enrolling =
    (false, Security.click_setup)
    ∷ (false, Security.setup_reply (record { secret = "S"; otpauth_uri = "u"; qr_code = "q" }))
    ∷ (false, Security.type_enable_code "123456")
    ∷ (false, Security.submit_enable)
    ∷ (false, Security.enable_reply ("c1" ∷ "c2" ∷ []))
    ∷ []

codes_shown : (Security.run Security.opened enrolling).backup_codes ≡ some ("c1" ∷ "c2" ∷ [])
unfolding Security.run Security.act Security.opened trim
codes_shown = refl

sends_setup :
    calls (Security.act false (Security.run Security.opened []) Security.click_setup).1 ≢ []
unfolding Security.run Security.act Security.opened
sends_setup e = ground arith
