-- ===== src/Examples/Backend.antt =====
-- Examples for the server and what the pages ask of it.
use socblitz.Common.{
  ℕ, String, Bool, true, false, ◌==◌, ◌<◌, ltb, ◌≡◌, ◌≢◌, refl, Option, none, some, List, [], ◌∷◌,
  All, any, map, arith, if◌then◌else◌,
}
use socblitz.Common.Json.{Fields, str, null, field, end}
use socblitz.Api.{
  AuthState, clear_auth, to_login, account, login, mfa_verify, mfa_setup, mfa_enable, mfa_disable,
  stay,
}
use socblitz.Ui.{calls}
use socblitz.CaseDetail.Header.{
  Case, opened, Event, pick_status, confirm, pick_classification, listed, act, run,
}
use socblitz.Cases.Table.{resolve_case}
use socblitz.Login as Page
use socblitz.Login.{LoginPage, Grant}
use socblitz.Settings
use socblitz.Settings.Queries.{queries}
use socblitz.Engine.Parsers
use socblitz.Server.{Answer, reply, raise}
use socblitz.Server.Mfa as Mfa
use socblitz.Server.Mfa.{User, Account, LoginResponse}
use socblitz.Server.Mfa.Codes as Codes
use socblitz.Server.Mfa.Codes.{
  verify, setup, count, disable, step, is_tokens, is_enrolled, run-is_enrolled, run-spent,
}
use socblitz.Server.Mfa.Throttle.{tried, tried-throttled}
use socblitz.Server.Mfa.Interceptor.{after, is_refused, ended_if, answers-ended_if}
use socblitz.Server.Mfa.Client.{answered, verify-answered}
use socblitz.Server.UpdateCase.Pages.{is_accepted, calls-accepted, resolve_case-refused}
use socblitz.Server.Tokens.{
  Claims, Row, active_user, get_current_user, session_of, issued, bearer_of, challenge-is_admitted,
}
use socblitz.Server.Roles.{is_forbidden, asks_forbidden, pages-permitted}

-- a clock at which the code of the secret is 123456
abbrev clock : (secret code : String) → Bool
clock secret code = code == "123456"

-- a digest, and the normalization of a text
abbrev marked : String → String
marked s = s

abbrev enrolled : Account
enrolled = record {
  user = record {
    is_active = true;
    mfa_enabled = true;
    totp_secret = some "JBSWY3DP";
    mfa_backup_codes = "aaaa-bbbb-cccc" ∷ "dddd-eeee-ffff" ∷ [];
  };
  attempts = some 2;
}

abbrev later : List Codes.Event
later = verify clock (some "mfa") "dddd-eeee-ffff" ∷ setup (reply tt) "OTHER" ∷ count none ∷ []

run-is_enrolled_example : is_enrolled marked marked (Codes.run marked marked enrolled later) ≡ true
run-is_enrolled_example = run-is_enrolled marked marked enrolled later refl

run-spent_example :
    is_tokens marked marked
      (Mfa.mfa_verify marked marked clock
        (Codes.run marked marked
          (step marked marked enrolled (verify clock (some "mfa") "aaaa-bbbb-cccc"))
          later)
        (some "mfa")
        "aaaa-bbbb-cccc").1
    ≡ false
unfolding step Codes.run Mfa.mfa_verify Mfa.mfa_throttle Mfa.check_mfa_code Mfa.clear_throttle
    Mfa.without_spaces Mfa.mfa_setup
run-spent_example =
    run-spent marked marked enrolled clock clock (some "mfa") (some "mfa") "aaaa-bbbb-cccc" later
      refl refl refl refl

abbrev guesses : List (((secret code : String) → Bool) × String)
guesses = map (λ code. (clock, code)) ("1" ∷ "2" ∷ "3" ∷ "4" ∷ "5" ∷ "6" ∷ "7" ∷ "aaaa-bbbb" ∷ [])

tried-throttled_example :
    (Mfa.mfa_verify marked marked clock
      (tried marked marked enrolled guesses)
      (some "mfa")
      "123456").1
    ≡ raise 429 "Too many MFA attempts — try again in a few minutes"
unfolding Mfa.mfa_verify Mfa.mfa_throttle Mfa.check_mfa_code Mfa.clear_throttle Mfa.without_spaces
tried-throttled_example =
    tried-throttled marked marked enrolled 2 guesses clock "123456" refl refl refl (omega arith)

abbrev visitor : AuthState
visitor = record {
  token = some "t1";
  user_id = some "u1";
  role = some "analyst";
  full_name = some "Ann";
}

abbrev denied : String → Bool
denied password = false

-- tokens that are their claims, until they expire
abbrev plain : Claims → Claims
plain claims = claims

abbrev read : (now : ℕ) → Claims → Option Claims
read now claims = if ltb now claims.exp then some claims else none

read-plain : (now : ℕ) (claims : Claims) → now < claims.exp → read now (plain claims) ≡ some claims
read-plain now claims h = ground arith

abbrev ann_row : Row
ann_row = record { id = "u1"; role = "analyst"; user = enrolled.user }

-- a token that has expired, as the client still holds it
abbrev old_token : Claims
old_token = record { sub = some "u1"; exp = 1300; iat = 1000; kind = "access"; scopes = [] }

abbrev old_session : Answer Unit
old_session = session_of (get_current_user plain read 5000 (ann_row ∷ []) (some old_token))

-- the refused session is ended
ended_old : ended_if (is_refused old_session) visitor ≡ (clear_auth visitor, to_login)
unfolding get_current_user
ended_old = refl

answers-ended_if_example :
    (after visitor (account (login "ann@acme.com" "x")) (Mfa.login denied enrolled "x")
      ≡ (visitor, stay))
    × (after visitor
          (account (mfa_verify "m1" "1"))
          (Mfa.mfa_verify marked marked clock enrolled (some "mfa") "1").1
        ≡ (visitor, stay))
    × (after visitor (account mfa_setup) (Mfa.mfa_setup old_session enrolled "OTHER").1
        ≡ ended_if (is_refused old_session) visitor)
    × (after visitor
          (account (mfa_enable "1"))
          (Mfa.mfa_enable marked marked clock old_session enrolled "1" ("a" ∷ [])).1
        ≡ ended_if (is_refused old_session) visitor)
    × (after visitor
          (account (mfa_disable "x" "1"))
          (Mfa.mfa_disable marked marked clock denied old_session enrolled "x" "1").1
        ≡ ended_if (is_refused old_session) visitor)
answers-ended_if_example =
    answers-ended_if marked marked plain read 5000 (ann_row ∷ []) (some old_token) visitor enrolled
      clock denied (some "mfa") "ann@acme.com" "x" "m1" "1" "OTHER" ("a" ∷ [])

abbrev second_step : LoginPage
second_step = record {
  auth = clear_auth visitor;
  email = "ann@acme.com";
  password = "pw";
  loading = true;
  mfa_token = some "m1";
  code = "1";
  waiting = some (Page.for_verify "ann@acme.com");
}

abbrev ann : Grant
ann = record { access_token = "t2"; user_id = "u1"; role = "analyst"; full_name = "Ann" }

verify-answered_example :
    ((Page.act second_step (
        answered marked marked ann
          (Mfa.mfa_verify marked marked clock enrolled (some "mfa") "1").1)).0.auth
      ≡ second_step.auth)
    × ((Page.act second_step (
          answered marked marked ann
            (Mfa.mfa_verify marked marked clock enrolled (some "mfa") "1").1)).0.mfa_token
        ≡ some "m1")
unfolding Mfa.mfa_verify Mfa.mfa_throttle Mfa.check_mfa_code Mfa.clear_throttle Mfa.without_spaces
verify-answered_example =
    verify-answered marked marked second_step "ann@acme.com" ann enrolled clock (some "mfa") "1"
      refl refl

abbrev unclassified : Case
unclassified = record { status = "in_progress"; classification = none; assigned_to = none }

abbrev on_server : Fields
on_server =
    field "title" (str "Beacon")
      (field "status" (str "in_progress") (field "classification" null end))

abbrev closing : List (Case × Event)
closing =
    (unclassified, pick_status "resolved")
    ∷ (unclassified, pick_classification "false_positive")
    ∷ []

calls-accepted_example :
    All
      (λ call. is_accepted on_server call ≡ true)
      (calls (act "c1" none unclassified (run "c1" none opened closing) (confirm false)).1)
unfolding listed
calls-accepted_example =
    calls-accepted "c1" none closing on_server unclassified (confirm false) (refl, (refl, tt)) refl

resolve_case-refused_example :
    calls (resolve_case "c1" "in_progress") ≢ []
    × All (λ call. is_accepted on_server call ≡ false) (calls (resolve_case "c1" "in_progress"))
resolve_case-refused_example =
    resolve_case-refused "c1" "in_progress" on_server unclassified refl refl refl

abbrev administration : List Settings.Event
administration = Settings.toggle_user_form ∷ Settings.submit_user ∷ Settings.reset_mfa 0 true ∷ []

abbrev parser : Parsers.Parser
parser = record { name = "myapp"; yaml = "name: myapp"; source = "custom" }

abbrev editing : List Parsers.Event
editing =
    Parsers.list_loaded (parser ∷ []) ∷ Parsers.pick 0 ∷ Parsers.save ∷ Parsers.delete true ∷ []

pages-permitted_example :
    (any
        (is_forbidden (some "analyst"))
        (Settings.effects (some "analyst") Settings.opened administration)
      ≡ false)
    × (any (is_forbidden (some "analyst")) (Parsers.effects (some "analyst") Parsers.opened editing)
        ≡ false)
    × (any (asks_forbidden (some "analyst")) (queries (some "analyst")) ≡ false)
    × (asks_forbidden (some "analyst") Parsers.parsers_query ≡ false)
pages-permitted_example =
    pages-permitted (some "analyst") Settings.opened administration Parsers.opened editing

abbrev admitted : String → Bool
admitted password = password == "pw"

challenge-is_admitted_example :
    (Mfa.login admitted enrolled "pw" ≡ reply Mfa.challenge)
    × (get_current_user plain read 1200
          (ann_row ∷ [])
          (some (bearer_of plain read (issued plain read 60 1000 ann_row Mfa.challenge)))
        ≡ reply ann_row)
unfolding active_user
challenge-is_admitted_example =
    challenge-is_admitted plain read read-plain admitted enrolled "pw" (ann_row ∷ []) ann_row 60
      1000 1200 refl refl refl refl refl (omega arith)
