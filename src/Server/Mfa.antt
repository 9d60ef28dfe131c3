-- ===== src/Server/Mfa.antt =====
-- Signing in and the second factor on the server, backend/app/api/v1/router.py, for one account. The clock is
-- in the argument `totp`, which says whether a code fits a secret at that moment (`pyotp`). What Python and
-- its libraries do to texts (`strip`, `digest` of the normalized code) and to passwords is a parameter, and
-- so are the values drawn at random. An endpoint for signed-in users has the argument `session`: what
-- `get_current_user` answers to the request (Server/Tokens), a reply where it is from this account. The row is written back at the end of each endpoint.
pub mod Codes
pub mod Throttle
pub mod Interceptor
pub mod Client
use Prim.Native.Char.{code}
use socblitz.Common.{
  ℕ, suc, ◌+◌, String, Bool, true, false, not, ◌&&◌, ◌||◌, ◌==◌, Option, none, some, List, [], ◌∷◌,
  any, filter, map, truthy, ltb, eqb, is_some, if◌then◌else◌,
}
use socblitz.Server.{Answer, reply, raise}

-- what the endpoints read and write of a user
pub record User : Type 0 where
  pub is_active : Bool
  pub mfa_enabled : Bool
  pub totp_secret : Option String
  -- digests of the backup codes; none at all is the empty list
  pub mfa_backup_codes : List String

-- The account with the counter of attempts that Redis holds, or without it while Redis cannot be reached.
pub record Account : Type 0 where
  pub user : User
  pub attempts : Option ℕ

-- the tokens, or the challenge for the second factor
pub data LoginResponse : Type 0 where
  tokens : LoginResponse
  challenge : LoginResponse

-- `code.replace(" ", "")`
unfoldable pub without_spaces : String → String
without_spaces String.[] = ""
without_spaces (String.◌∷◌ c s) =
    if eqb (code c) b' ' then without_spaces s else String.◌∷◌ c (without_spaces s)

-- a secret that is neither missing nor empty
abbrev pub has_secret : Option String → Bool
has_secret none = false
has_secret (some s) = truthy s

abbrev fits_secret : (totp : (secret code : String) → Bool) → Option String → String → Bool
fits_secret totp none code = false
fits_secret totp (some secret) code = truthy secret && totp secret code

-- `_mfa_throttle(user_id)`: the account, and whether it raised 429
unfoldable pub mfa_throttle : Account → Account × Bool
mfa_throttle a = elim a.attempts [
  | none ↦ (a, false)
  | some n ↦ (record a { attempts = some (n + 1) }, ltb 8 (n + 1))
]

-- `_mfa_throttle(user_id, clear=True)`
unfoldable pub clear_throttle : Account → Account
clear_throttle a = elim a.attempts [ none ↦ a | some n ↦ record a { attempts = some 0 } ]

abbrev too_many : Answer LoginResponse
too_many = raise 429 "Too many MFA attempts — try again in a few minutes"

-- `login`, for the account with that address
unfoldable pub login :
    (password_ok : String → Bool) → Account → (password : String) → Answer LoginResponse
login password_ok a password =
    if not (password_ok password)
    then raise 401 "Incorrect email or password"
    else if not a.user.is_active
    then raise 403 "This account is disabled — contact an administrator"
    else if a.user.mfa_enabled
    then reply challenge
    else reply tokens

abbrev session_over : Answer LoginResponse
session_over = raise 401 "Invalid or expired MFA session — sign in again"

-- `mfa_setup`, with the secret that it draws
unfoldable pub mfa_setup :
    (session : Answer Unit) → Account → (secret : String) → Account × Answer String
mfa_setup (raise status detail) a secret = (a, raise status detail)
mfa_setup (reply x) a secret =
    if a.user.mfa_enabled
    then (a, raise 400 "MFA is already enabled — disable it first to re-enroll")
    else (record a { user = record a.user { totp_secret = some secret } }, reply secret)

abbrev without_mfa : User → User
without_mfa u = record u { mfa_enabled = false; totp_secret = none; mfa_backup_codes = [] }

-- `admin_reset_mfa`, where `session` is what `require_admin` answers
unfoldable pub admin_reset_mfa : (session : Answer Unit) → Account → Account × Answer Unit
admin_reset_mfa (raise status detail) a = (a, raise status detail)
admin_reset_mfa (reply x) a = (record a { user = without_mfa a.user }, reply tt)

module _ (strip : String → String) (digest : String → String) where
  -- `_check_mfa_code`: a backup code that is accepted is taken off the list
  unfoldable pub check_mfa_code :
      (totp : (secret code : String) → Bool) → User → String → User × Bool
  unfolding without_spaces
  check_mfa_code totp u code =
      let c = without_spaces (strip code) in
      if fits_secret totp u.totp_secret c
      then (u, true)
      else if any (λ h. h == digest c) u.mfa_backup_codes
      then (
        record u { mfa_backup_codes = filter (λ h. not (h == digest c)) u.mfa_backup_codes },
        true,
      )
      else (u, false)

  -- the end of `mfa_verify` for an account whose code is checked
  abbrev checked : Account → User × Bool → Account × Answer LoginResponse
  checked a (u, true) = (clear_throttle (record a { user = u }), reply tokens)
  checked a (u, false) = (a, raise 401 "Invalid verification code")

  abbrev verify_throttled :
      (totp : (secret code : String) → Bool)
      → (code : String) → Account × Bool
      → Account × Answer LoginResponse
  verify_throttled totp code (a, true) = (a, too_many)
  verify_throttled totp code (a, false) = checked a (check_mfa_code totp a.user code)

  -- `mfa_verify`; `kind` is the type that the challenge token names, if it decodes and is of the account
  unfoldable pub mfa_verify :
      (totp : (secret code : String) → Bool)
      → Account
      → (kind : Option String) → (code : String) → Account × Answer LoginResponse
  unfolding mfa_throttle check_mfa_code clear_throttle
  mfa_verify totp a none code = (a, session_over)
  mfa_verify totp a (some kind) code =
      if not (kind == "mfa")
        || not a.user.is_active
        || not a.user.mfa_enabled
        || not (has_secret a.user.totp_secret)
      then (a, session_over)
      else verify_throttled totp code (mfa_throttle a)

  -- `mfa_enable`, with the backup codes that it draws
  unfoldable pub mfa_enable :
      (totp : (secret code : String) → Bool) (session : Answer Unit)
      → Account
      → (code : String) → (backup_codes : List String) → Account × Answer (List String)
  unfolding without_spaces
  mfa_enable totp (raise status detail) a code backup_codes = (a, raise status detail)
  mfa_enable totp (reply x) a code backup_codes =
      if a.user.mfa_enabled
      then (a, raise 400 "MFA is already enabled")
      else if not (has_secret a.user.totp_secret)
      then (a, raise 400 "Run /auth/mfa/setup first")
      else if not (fits_secret totp a.user.totp_secret (without_spaces (strip code)))
      then (a, raise 400 "Invalid verification code — check your authenticator app")
      else (
        record a {
          user = record a.user { mfa_enabled = true; mfa_backup_codes = map digest backup_codes };
        },
        reply backup_codes,
      )

  abbrev disable_checked : Account → User × Bool → Account × Answer Unit
  disable_checked a (u, true) = (clear_throttle (record a { user = without_mfa u }), reply tt)
  disable_checked a (u, false) = (a, raise 400 "Invalid verification code")

  abbrev disable_throttled :
      (totp : (secret code : String) → Bool)
      → (code : String) → Account × Bool
      → Account × Answer Unit
  disable_throttled totp code (a, true) =
      (a, raise 429 "Too many MFA attempts — try again in a few minutes")
  disable_throttled totp code (a, false) = disable_checked a (check_mfa_code totp a.user code)

  -- `mfa_disable`
  unfoldable pub mfa_disable :
      (totp : (secret code : String) → Bool) (password_ok : String → Bool) (session : Answer Unit)
      → Account
      → (password code : String) → Account × Answer Unit
  unfolding mfa_throttle check_mfa_code clear_throttle
  mfa_disable totp password_ok (raise status detail) a password code = (a, raise status detail)
  mfa_disable totp password_ok (reply x) a password code =
      if not a.user.mfa_enabled
      then (a, raise 400 "MFA is not enabled")
      else if not (password_ok password)
      then (a, raise 400 "Invalid password")
      else disable_throttled totp code (mfa_throttle a)
