-- ===== src/AccountSecurity.antt =====
-- The account page, frontend/src/pages/AccountSecurity.tsx: enrolling and removing the second
-- factor. An awaited call is two events. Whether the user has a second factor is what the query
-- for the user holds; while it is loading the page shows nothing and no event arises.
pub mod Trace
use socblitz.Common.{
  String, Bool, true, false, not, ◌&&◌, ◌||◌, Option, none, some, List, [], ◌∷◌, truthy, trim,
  is_some, if◌then◌else◌,
}
use socblitz.Common.Json.{str}
use socblitz.Api.{Call, account, mfa_setup, mfa_enable, mfa_disable}
use socblitz.Ui.{Effect, send, invalidate, clipboard, toast_error, success, Detail, detail_or}

pub record SetupData : Type 0 where
  pub secret : String
  pub otpauth_uri : String
  pub qr_code : String

-- the call that is awaited
pub data Waiting : Type 0 where
  for_setup for_enable for_disable : Waiting

pub record Security : Type 0 where
  pub setup : Option SetupData
  pub enable_code : String
  pub backup_codes : Option (List String)
  pub disable_password : String
  pub disable_code : String
  pub busy : Bool
  pub copied : Bool
  pub waiting : Option Waiting

unfoldable pub opened : Security
opened = record {
  setup = none;
  enable_code = "";
  backup_codes = none;
  disable_password = "";
  disable_code = "";
  busy = false;
  copied = false;
  waiting = none;
}

pub data Event : Type 0 where
  click_setup : Event
  type_enable_code : String → Event
  submit_enable : Event
  type_password : String → Event
  type_disable_code : String → Event
  submit_disable : Event
  copy : Event
  -- the timer of `copyBackupCodes`
  copy_elapsed : Event
  -- answers of the server
  setup_reply : SetupData → Event
  enable_reply : (backup_codes : List String) → Event
  disable_reply : Event
  fail : Detail → Event

abbrev sent : Security → Waiting → Call → Security × List Effect
sent s w c = (record s { busy = true; waiting = some w }, send c ∷ [])

-- the `finally` blocks
abbrev settled : Security → Security
settled s = record s { busy = false; waiting = none }

-- `startSetup`
start_setup : Bool → Security → Security × List Effect
start_setup mfa_enabled s =
    if mfa_enabled || is_some s.setup || s.busy
    then (s, [])
    else sent s for_setup (account mfa_setup)

-- `confirmEnable`
confirm_enable : Security → Security × List Effect
confirm_enable s =
    if not (is_some s.setup) || s.busy || not (truthy (trim s.enable_code))
    then (s, [])
    else sent s for_enable (account (mfa_enable s.enable_code))

-- `handleDisable`
handle_disable : Bool → Security → Security × List Effect
handle_disable mfa_enabled s =
    if not mfa_enabled
      || s.busy
      || not (truthy s.disable_password)
      || not (truthy (trim s.disable_code))
    then (s, [])
    else sent s for_disable (account (mfa_disable s.disable_password s.disable_code))

-- `copyBackupCodes`, whose text joins the codes by line ends
copy_codes : Security → Option (List String) → Security × List Effect
copy_codes s none = (s, [])
copy_codes s (some cs) =
    (record s { copied = true }, clipboard cs ∷ success "Backup codes copied" ∷ [])

setup_replied : Security → Option Waiting → SetupData → Security × List Effect
setup_replied s (some for_setup) d = (record (settled s) { setup = some d }, [])
setup_replied s _ d = (s, [])

enable_replied : Security → Option Waiting → List String → Security × List Effect
enable_replied s (some for_enable) cs = (
  record (settled s) { backup_codes = some cs; setup = none; enable_code = "" },
  invalidate (str "me" ∷ []) ∷ success "Two-factor authentication enabled" ∷ [],
)
enable_replied s _ cs = (s, [])

disable_replied : Security → Option Waiting → Security × List Effect
disable_replied s (some for_disable) = (
  record (settled s) { disable_password = ""; disable_code = ""; backup_codes = none },
  invalidate (str "me" ∷ []) ∷ success "Two-factor authentication disabled" ∷ [],
)
disable_replied s _ = (s, [])

failed : Security → Option Waiting → Detail → Security × List Effect
failed s none d = (s, [])
failed s (some for_setup) d =
    (settled s, toast_error (detail_or d "Could not start MFA setup") ∷ [])
failed s (some for_enable) d =
    (settled s, toast_error (detail_or d "Invalid verification code") ∷ [])
failed s (some for_disable) d = (settled s, toast_error (detail_or d "Could not disable MFA") ∷ [])

-- A button or form that is not shown, or is disabled, does nothing.
unfoldable pub act : (mfa_enabled : Bool) → Security → Event → Security × List Effect
unfolding start_setup confirm_enable handle_disable copy_codes setup_replied enable_replied
    disable_replied failed
act mfa_enabled s click_setup = start_setup mfa_enabled s
act mfa_enabled s (type_enable_code c) = (record s { enable_code = c }, [])
act mfa_enabled s submit_enable = confirm_enable s
act mfa_enabled s (type_password p) = (record s { disable_password = p }, [])
act mfa_enabled s (type_disable_code c) = (record s { disable_code = c }, [])
act mfa_enabled s submit_disable = handle_disable mfa_enabled s
act mfa_enabled s copy = copy_codes s s.backup_codes
act mfa_enabled s copy_elapsed = (record s { copied = false }, [])
act mfa_enabled s (setup_reply d) = setup_replied s s.waiting d
act mfa_enabled s (enable_reply cs) = enable_replied s s.waiting cs
act mfa_enabled s disable_reply = disable_replied s s.waiting
act mfa_enabled s (fail d) = failed s s.waiting d

-- A sequence of events, each with what the query for the user holds at that moment.
unfoldable pub run : Security → List (Bool × Event) → Security
run s [] = s
run s ((m, e) ∷ es) = run (act m s e).0 es
