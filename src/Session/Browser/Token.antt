-- ===== src/Session/Browser/Token.antt =====
-- Where the token in the store comes from, and what signing out ends.
use socblitz.Common.{
  String, Bool, true, false, not, ◌&&◌, ◌||◌, ◌==◌, ◌≡◌, none, some, List, [], ◌∷◌, any, is_some,
  eq_refl, if◌then◌else◌, arith,
}
use socblitz.Api.{
  AuthState, Call, request, authorize, is_401, is_auth_attempt, render, on_response_error,
  clear_auth, set_auth,
}
use socblitz.Login as SignIn
use socblitz.Login.{granted, login_reply, verify_reply}
use socblitz.Layout as Frame
use socblitz.App.{auth_guard}
use socblitz.App.Routes.{Route, follow}
use socblitz.App.Routes.Redirects.{FindsStatic, follow-landing}
use socblitz.Session.Browser.{
  Browser, Event, at_login, at_frame, call_failed, visit, step, run, move, load,
}

-- the answer of the server that carries this token
abbrev pub gives : String → Event → Bool
gives t (at_login (login_reply (granted d))) = d.access_token == t
gives t (at_login (verify_reply d)) = d.access_token == t
gives t _ = false

-- an answer that carries some token
abbrev pub is_grant : Event → Bool
is_grant (at_login (login_reply (granted d))) = true
is_grant (at_login (verify_reply d)) = true
is_grant _ = false

-- signing out, or a call other than the sign-in calls that is refused with 401
abbrev pub ends_session : Event → Bool
ends_session (at_frame Frame.logout) = true
ends_session (call_failed c status) =
    is_401 status && not (is_auth_attempt (render (request c).url))
ends_session _ = false

-- the token was given by an answer after which the session has not ended; `before` says it for the start
abbrev pub is_given : String → (before : Bool) → List Event → Bool
is_given t before [] = before
is_given t before (e ∷ es) = is_given t (if ends_session e then false else before || gives t e) es

token-step :
    (t : String) (before : Bool) (b : Browser) (e : Event)
    → (b.login.auth.token ≡ some t → before ≡ true)
    → (step b e).login.auth.token ≡ some t
    → (if ends_session e then false else before || gives t e) ≡ true
unfolding step move load SignIn.act SignIn.start Frame.act Frame.handle_logout on_response_error
    clear_auth set_auth
token-step t before b (at_login e) k h = ground (arith, k, eq_refl t)
token-step t before b (at_frame e) k h = ground (arith, k)
token-step t before b (call_failed c status) k h = ground (arith, k)
token-step t before b (visit a) k h = ground (arith, k)

token-run :
    (t : String) (before : Bool) (b : Browser) (es : List Event)
    → (b.login.auth.token ≡ some t → before ≡ true)
    → (run b es).login.auth.token ≡ some t
    → is_given t before es ≡ true
unfolding run
token-run t before b [] k h = k h
token-run t before b (e ∷ es) k h =
    token-run t (if ends_session e then false else before || gives t e) (step b e) es
      (token-step t before b e k) h

-- A browser starts without a token. Whatever happens then in any of the parts, a token that a request
-- carries was given by an answer of the server to a sign-in, and the session has not ended since: neither
-- by signing out nor by a call other than the sign-in calls that was refused with 401.
pub bearer-is_given :
    (auth : AuthState) (address t : String) (es : List Event) (c : Call)
    → auth.token ≡ none
    → (authorize (run (load auth address) es).login.auth (request c)).bearer ≡ some t
    → is_given t false es ≡ true
unfolding authorize load SignIn.start
bearer-is_given auth address t es c k h =
    token-run t false (load auth address) es (ground (arith, k)) (ground (arith, h))

has_no_token : Browser → Bool
has_no_token b = not (is_some b.login.auth.token)

step-ends : (b : Browser) (e : Event) → ends_session e ≡ true → has_no_token (step b e) ≡ true
unfolding has_no_token step move load SignIn.act SignIn.start Frame.act Frame.handle_logout
    on_response_error clear_auth set_auth
step-ends b e h = ground arith

step-shut :
    (b : Browser) (e : Event)
    → is_grant e ≡ false
    → has_no_token b ≡ true
    → has_no_token (step b e) ≡ true
unfolding has_no_token step move load SignIn.act SignIn.start Frame.act Frame.handle_logout
    on_response_error clear_auth set_auth
step-shut b e g h = ground arith

run-shut :
    (b : Browser) (es : List Event)
    → any is_grant es ≡ false
    → has_no_token b ≡ true
    → has_no_token (run b es) ≡ true
unfolding run
run-shut b [] g h = h
run-shut b (e ∷ es) g h = ground (arith, step-shut b e, run-shut (step b e) es)

-- Where React Router finds the routes without parameters at their own paths: once the session has ended,
-- and until an answer of the server carries a token again, every address leads to the sign-in page and no
-- request carries a token, whatever happens in any of the parts.
pub run-shut_out :
    (choose : String → Route) (finds : FindsStatic choose) (b : Browser) (e : Event)
    (es : List Event) (address : String) (c : Call)
    → ends_session e ≡ true
    → any is_grant es ≡ false
    → (follow choose (run (step b e) es).login.auth 3 address ≡ some "Login")
      × ((authorize (run (step b e) es).login.auth (request c)).bearer ≡ none)
unfolding auth_guard authorize has_no_token
run-shut_out choose finds b e es address c h g = ground (
  arith,
  run-shut (step b e) es g (step-ends b e h),
  follow-landing choose finds (run (step b e) es).login.auth 0 address,
)
