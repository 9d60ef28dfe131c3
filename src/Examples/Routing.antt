-- ===== src/Examples/Routing.antt =====
-- Examples for the routes of frontend/src/App.tsx, and for the session that they depend on.
use socblitz.Common.{String, ◌≡◌, refl, ◌==◌, Option, none, some, List, [], ◌∷◌, find?, arith}
use socblitz.Api.{AuthState}
use socblitz.Common.{trim, true, false}
use socblitz.Api.{Call, account, me, request, authorize, is_auth_attempt, set_auth}
use socblitz.Login as SignIn
use socblitz.Layout as Frame
use socblitz.Session.Browser.{Event, at_login, at_frame, call_failed, visit, load, move, step, run}
use socblitz.Session.Browser.Token.{ends_session, is_given, bearer-is_given, run-shut_out}
use socblitz.App.{auth_guard}
use socblitz.App.Routes.{
  Route, login, index, overview, alerts, events, custom_dashboard, cases, agents, threat_intel,
  dark_web, forensics, soar, new_workflow, engine, connectors, settings, account, alert_detail,
  event_detail, case_detail, edit_workflow, any, path, is_static, follow,
}
use socblitz.App.Routes.Redirects.{FindsStatic, follow-landing}

-- a router that knows the routes without parameters only
abbrev static_routes : List Route
static_routes =
    login ∷ index ∷ overview ∷ alerts ∷ events ∷ custom_dashboard ∷ cases ∷ agents ∷ threat_intel
    ∷ dark_web ∷ forensics ∷ soar ∷ new_workflow ∷ engine ∷ connectors ∷ settings ∷ account ∷ []

abbrev route_or : Option Route → Route
route_or none = any
route_or (some r) = r

abbrev choose_static : String → Route
unfolding path
choose_static address = route_or (find? (λ r. path r == address) static_routes)

finds : FindsStatic choose_static
unfolding path is_static
finds login e = refl
finds index e = refl
finds overview e = refl
finds alerts e = refl
finds events e = refl
finds custom_dashboard e = refl
finds cases e = refl
finds agents e = refl
finds threat_intel e = refl
finds dark_web e = refl
finds forensics e = refl
finds soar e = refl
finds new_workflow e = refl
finds engine e = refl
finds connectors e = refl
finds settings e = refl
finds account e = refl
finds alert_detail e = ground (arith, e)
finds event_detail e = ground (arith, e)
finds case_detail e = ground (arith, e)
finds edit_workflow e = ground (arith, e)
finds any e = ground (arith, e)

abbrev nobody : AuthState
nobody = record { token = none; user_id = none; role = none; full_name = none }

abbrev somebody : AuthState
somebody = record { token = some "t1"; user_id = some "u1"; role = none; full_name = none }

-- an unknown address leads to the overview, and from there to the sign-in page
follow-landing_example : follow choose_static nobody 3 "/reports" ≡ some "Login"
unfolding auth_guard
follow-landing_example = follow-landing choose_static finds nobody 0 "/reports"

-- two visits are not enough
two_visits : follow choose_static nobody 2 "/reports" ≡ none
unfolding follow path
two_visits = refl

-- a call that is refused ends the session, and what happens then changes nothing
abbrev me_call : Call
me_call = account me

me_ends : ends_session (call_failed me_call (some 401)) ≡ true
unfolding request is_auth_attempt
me_ends = refl

abbrev afterwards : List Event
afterwards =
    visit "/cases"
    ∷ at_frame (Frame.press_item (record { to = "/alerts"; label = "Alerts" }))
    ∷ at_login (SignIn.type_email "ann@soc")
    ∷ at_login SignIn.submit_login
    ∷ []

run-shut_out_example :
    (follow choose_static
        (run (step (load somebody "/cases") (call_failed me_call (some 401))) afterwards).login.auth
        3
        "/alerts"
      ≡ some "Login")
    × ((authorize
          (run
            (step (load somebody "/cases") (call_failed me_call (some 401)))
            afterwards).login.auth
          (request me_call)).bearer
        ≡ none)
run-shut_out_example =
    run-shut_out choose_static finds (load somebody "/cases") (call_failed me_call (some 401))
      afterwards "/alerts" me_call me_ends refl

abbrev grant : SignIn.Grant
grant = record { access_token = "t2"; user_id = "u1"; role = "analyst"; full_name = "Ann" }

-- signing in, signing out and signing in again
abbrev visits : List Event
visits =
    at_login SignIn.submit_login
    ∷ at_login (SignIn.login_reply (SignIn.granted grant))
    ∷ at_frame Frame.logout
    ∷ at_login SignIn.submit_login
    ∷ at_login (SignIn.login_reply (SignIn.mfa_required "m1"))
    ∷ at_login (SignIn.type_code "123456")
    ∷ at_login SignIn.submit_code
    ∷ at_login (SignIn.verify_reply grant)
    ∷ []

carries_t2 :
    (authorize (run (load nobody "/login") visits).login.auth (request me_call)).bearer ≡ some "t2"
unfolding authorize run step load move SignIn.act SignIn.start Frame.act Frame.handle_logout trim
    set_auth
carries_t2 = refl

bearer-is_given_example : is_given "t2" false visits ≡ true
bearer-is_given_example = bearer-is_given nobody "/login" "t2" visits me_call refl carries_t2
