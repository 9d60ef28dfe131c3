-- ===== src/Server/Mfa/Interceptor.antt =====
-- The answers of the server as the response interceptor takes them, frontend/src/stores/auth.ts.
use socblitz.Common.{
  ℕ, String, Bool, true, false, not, ◌&&◌, ◌≡◌, refl, ◌∙◌, Option, none, some, List, arith,
}
use socblitz.Api.{
  AuthState, Call, account, login, mfa_verify, mfa_setup, mfa_enable, mfa_disable, request, render,
  is_401, on_response_error, is_auth_attempt, stay, to_login, clear_auth, Redirect,
}
use socblitz.Session.Browser.{error_of}
use socblitz.Server.{Answer, reply, raise}
use socblitz.Server.Tokens.{Claims, Row, get_current_user, session_of, user_named, user_claimed}
use socblitz.Server.Mfa as Server
use socblitz.Server.Mfa.{Account, LoginResponse, has_secret}

-- the status of the response to a call that failed
abbrev pub status_of : {A : Type 0} → Answer A → Option ℕ
status_of (reply x) = none
status_of (raise status detail) = some status

-- what the interceptor does with the answer
abbrev pub after : {A : Type 0} → AuthState → Call → Answer A → AuthState × Redirect
after s c answer = on_response_error s (error_of c (status_of answer))

stays :
    (s : AuthState) (c : Call) (status : Option ℕ)
    → (is_401 status && not (is_auth_attempt (render (request c).url))) ≡ false
    → on_response_error s (error_of c status) ≡ (s, stay)
unfolding on_response_error
stays s c status h = rw h refl

-- the addresses of the two sign-in calls
attempt_login :
    (email password : String)
    → is_auth_attempt (render (request (account (login email password))).url) ≡ true
unfolding request is_auth_attempt
attempt_login email password = refl

attempt_verify :
    (token code : String)
    → is_auth_attempt (render (request (account (mfa_verify token code))).url) ≡ true
unfolding request is_auth_attempt
attempt_verify token code = refl

-- the request is refused for its token
abbrev pub is_refused : Answer Unit → Bool
is_refused (reply x) = false
is_refused (raise status detail) = true

-- the client signs the user out where the token was refused, and nothing happens otherwise
abbrev pub ended_if : Bool → AuthState → AuthState × Redirect
ended_if true s = (clear_auth s, to_login)
ended_if false s = (s, stay)

-- a call for signed-in users that is answered with 401 exactly where its token is refused
ends :
    (s : AuthState) (c : Call) (status : Option ℕ) (refused : Bool)
    → is_auth_attempt (render (request c).url) ≡ false
    → is_401 status ≡ refused
    → on_response_error s (error_of c status) ≡ ended_if refused s
unfolding on_response_error
ends s c status true n h = rw (h, n) refl
ends s c status false n h = rw h refl

no_attempt_setup : is_auth_attempt (render (request (account mfa_setup)).url) ≡ false
unfolding request is_auth_attempt
no_attempt_setup = refl

no_attempt_enable :
    (code : String) → is_auth_attempt (render (request (account (mfa_enable code))).url) ≡ false
unfolding request is_auth_attempt
no_attempt_enable code = refl

no_attempt_disable :
    (password code : String)
    → is_auth_attempt (render (request (account (mfa_disable password code))).url) ≡ false
unfolding request is_auth_attempt
no_attempt_disable password code = refl

named-is_refused :
    (rows : List Row) (id : Option String)
    → is_401 (status_of (session_of (user_named rows id)))
      ≡ is_refused (session_of (user_named rows id))
named-is_refused rows none = refl
named-is_refused rows (some id) = ground arith

claimed-is_refused :
    (rows : List Row) (o : Option Claims)
    → is_401 (status_of (session_of (user_claimed rows o)))
      ≡ is_refused (session_of (user_claimed rows o))
claimed-is_refused rows none = refl
claimed-is_refused rows (some claims) = named-is_refused rows claims.sub

-- the only refusal of `get_current_user` has the status 401
session-is_refused :
    {Token : Type 0} (encode : Claims → Token) (decode : (now : ℕ) → Token → Option Claims)
    (now : ℕ) (rows : List Row) (credentials : Option Token)
    → is_401 (status_of (session_of (get_current_user encode decode now rows credentials)))
      ≡ is_refused (session_of (get_current_user encode decode now rows credentials))
unfolding get_current_user
session-is_refused encode decode now rows none = refl
session-is_refused encode decode now rows (some credentials) =
    claimed-is_refused rows (decode now credentials)

module _ (strip : String → String) (digest : String → String) where
  setup-is_401 :
      (session : Answer Unit) (a : Account) (secret : String)
      → is_401 (status_of (Server.mfa_setup session a secret).1) ≡ is_401 (status_of session)
  unfolding Server.mfa_setup
  setup-is_401 (raise status detail) a secret = refl
  setup-is_401 (reply x) a secret = ground arith

  enable-is_401 :
      (session : Answer Unit) (a : Account) (totp : (secret code : String) → Bool) (code : String)
      (codes : List String)
      → is_401 (status_of (Server.mfa_enable strip digest totp session a code codes).1)
        ≡ is_401 (status_of session)
  unfolding Server.mfa_enable
  enable-is_401 (raise status detail) a totp code codes = refl
  enable-is_401 (reply x) a totp code codes = ground arith

  disable-is_401 :
      (session : Answer Unit) (a : Account) (totp : (secret code : String) → Bool)
      (password_ok : String → Bool) (password code : String)
      → is_401
          (status_of (Server.mfa_disable strip digest totp password_ok session a password code).1)
        ≡ is_401 (status_of session)
  unfolding Server.mfa_disable Server.mfa_throttle Server.clear_throttle Server.check_mfa_code
  disable-is_401 (raise status detail) a totp password_ok password code = refl
  disable-is_401 (reply x) a totp password_ok password code = ground arith

  -- The server answers the calls for the two steps of signing in, and those that set the second factor up, confirm
  -- it and turn it off, the latter for a request that carries these credentials. No answer to signing in signs
  -- the user out. An answer to the others signs the user out, by the response interceptor, exactly where
  -- `get_current_user` refuses the credentials: a wrong password or code never does.
  pub answers-ended_if :
      {Token : Type 0} (encode : Claims → Token) (decode : (now : ℕ) → Token → Option Claims)
      (now : ℕ) (rows : List Row) (credentials : Option Token) (s : AuthState) (a : Account)
      (totp : (secret code : String) → Bool) (password_ok : String → Bool) (kind : Option String)
      (email password token code secret : String) (codes : List String)
      → (after s (account (login email password)) (Server.login password_ok a password) ≡ (s, stay))
        × (after s
              (account (mfa_verify token code))
              (Server.mfa_verify strip digest totp a kind code).1
            ≡ (s, stay))
        × (after s
              (account mfa_setup)
              (Server.mfa_setup
                (session_of (get_current_user encode decode now rows credentials))
                a
                secret).1
            ≡ ended_if
                (is_refused (session_of (get_current_user encode decode now rows credentials)))
                s)
        × (after s
              (account (mfa_enable code))
              (Server.mfa_enable strip digest totp
                (session_of (get_current_user encode decode now rows credentials))
                a
                code
                codes).1
            ≡ ended_if
                (is_refused (session_of (get_current_user encode decode now rows credentials)))
                s)
        × (after s
              (account (mfa_disable password code))
              (Server.mfa_disable strip digest totp password_ok
                (session_of (get_current_user encode decode now rows credentials))
                a
                password
                code).1
            ≡ ended_if
                (is_refused (session_of (get_current_user encode decode now rows credentials)))
                s)
  answers-ended_if encode decode now rows credentials s a totp password_ok kind email password token
        code secret codes =
      let session = session_of (get_current_user encode decode now rows credentials) in
      let refused = session-is_refused encode decode now rows credentials in
      (
        stays s (account (login email password)) (status_of (Server.login password_ok a password))
            (ground (arith, attempt_login email password)),
        stays s (account (mfa_verify token code))
            (status_of (Server.mfa_verify strip digest totp a kind code).1)
            (ground (arith, attempt_verify token code)),
        ends s (account mfa_setup) (status_of (Server.mfa_setup session a secret).1)
            (is_refused session) no_attempt_setup (setup-is_401 session a secret ∙ refused),
        ends s (account (mfa_enable code))
            (status_of (Server.mfa_enable strip digest totp session a code codes).1)
            (is_refused session) (no_attempt_enable code)
            (enable-is_401 session a totp code codes ∙ refused),
        ends s (account (mfa_disable password code))
            (status_of (Server.mfa_disable strip digest totp password_ok session a password code).1)
            (is_refused session) (no_attempt_disable password code)
            (disable-is_401 session a totp password_ok password code ∙ refused),
      )
