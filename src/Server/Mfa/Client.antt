-- ===== src/Server/Mfa/Client.antt =====
-- The answers of the server to the second step as the sign-in page takes them, frontend/src/pages/Login.tsx.
use socblitz.Common.{
  ℕ, String, Bool, true, false, ◌&&◌, ◌==◌, ◌≡◌, refl, Option, none, some, arith, ◌⊎◌, inl, inr,
  if◌then◌else◌,
}
use socblitz.Ui.{text}
use socblitz.Login.{LoginPage, Grant, Event, verify_reply, fail, refused, for_verify, act}
use socblitz.Server.{Answer, reply, raise}
use socblitz.Server.Mfa as Server
use socblitz.Server.Mfa.{Account, LoginResponse, has_secret}
use socblitz.Server.Mfa.Codes.{is_tokens}

module _ (strip : String → String) (digest : String → String) where
  -- the event of the sign-in page that an answer to the second step is
  abbrev pub answered : Grant → Answer LoginResponse → Event
  answered d (reply r) = verify_reply d
  answered d (raise status detail) = fail (refused status (text detail))

  -- the challenge is one of this account, which has a second factor
  abbrev pub is_valid : Account → Option String → Bool
  is_valid a none = false
  is_valid a (some kind) =
      kind == "mfa" && a.user.is_active && a.user.mfa_enabled && has_secret a.user.totp_secret

  -- the refusals of the second step
  refusal :
      (a : Account) (totp : (secret code : String) → Bool) (kind : Option String) (code : String)
      → is_tokens strip digest (Server.mfa_verify strip digest totp a kind code).1 ≡ false
      → ((is_valid a kind ≡ false)
          × ((Server.mfa_verify strip digest totp a kind code).1 ≡ Server.session_over))
        ⊎ ((is_valid a kind ≡ true)
            × (((Server.mfa_verify strip digest totp a kind code).1
                  ≡ raise 401 "Invalid verification code")
                ⊎ ((Server.mfa_verify strip digest totp a kind code).1 ≡ Server.too_many)))
  unfolding Server.mfa_verify Server.mfa_throttle Server.clear_throttle Server.check_mfa_code
  refusal a totp none code h = inl (refl, refl)
  refusal a totp (some kind) code h = ground (arith, h)

  -- what the page does with a refusal of this status and text
  Leaves : LoginPage → (status : ℕ) → (detail : String) → Option String → Type 0
  Leaves p status detail token =
      ((act p (fail (refused status (text detail)))).0.auth ≡ p.auth)
      × ((act p (fail (refused status (text detail)))).0.mfa_token ≡ token)

  over-Leaves :
      (p : LoginPage) (email : String)
      → p.waiting ≡ some (for_verify email)
      → Leaves p 401 "Invalid or expired MFA session — sign in again" none
  unfolding Leaves act
  over-Leaves p email w = rw w (refl, refl)

  wrong-Leaves :
      (p : LoginPage) (email : String)
      → p.waiting ≡ some (for_verify email)
      → Leaves p 401 "Invalid verification code" p.mfa_token
  unfolding Leaves act
  wrong-Leaves p email w = rw w (refl, refl)

  many-Leaves :
      (p : LoginPage) (email : String)
      → p.waiting ≡ some (for_verify email)
      → Leaves p 429 "Too many MFA attempts — try again in a few minutes" p.mfa_token
  unfolding Leaves act
  many-Leaves p email w = rw w (refl, refl)

  -- The sign-in page awaits the answer to the second step. A refusal by the server leaves the store alone, and
  -- it leads back to the first step exactly where the challenge is not a valid one: a wrong code or too many
  -- attempts stay on the second step.
  pub verify-answered :
      (p : LoginPage) (email : String) (d : Grant) (a : Account)
      (totp : (secret code : String) → Bool) (kind : Option String) (code : String)
      → p.waiting ≡ some (for_verify email)
      → is_tokens strip digest (Server.mfa_verify strip digest totp a kind code).1 ≡ false
      → ((act p (answered d (Server.mfa_verify strip digest totp a kind code).1)).0.auth ≡ p.auth)
        × ((act p (answered d (Server.mfa_verify strip digest totp a kind code).1)).0.mfa_token
            ≡ (if is_valid a kind then p.mfa_token else none))
  unfolding Leaves
  verify-answered p email d a totp kind code w h = elim (refusal a totp kind code h) [
    | inl (v, e) ↦ rw (e, v) (over-Leaves p email w)
    | inr (v, inl e) ↦ rw (e, v) (wrong-Leaves p email w)
    | inr (v, inr e) ↦ rw (e, v) (many-Leaves p email w)
  ]
