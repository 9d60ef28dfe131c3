-- ===== src/Server/Mfa/Throttle.antt =====
-- How often codes can be guessed.
use socblitz.Common.{
  ℕ, suc, ◌+◌, ◌≤◌, String, Bool, true, false, not, ◌&&◌, ◌≡◌, some, List, [], ◌∷◌, length, eq_refl,
  arith,
}
use socblitz.Server.{raise}
use socblitz.Server.Mfa.{
  has_secret, Account, mfa_throttle, clear_throttle, check_mfa_code, mfa_verify,
}
use socblitz.Server.Mfa.Codes.{is_tokens}

module _ (strip : String → String) (digest : String → String) where
  -- the account after these codes were tried with a valid challenge, each at its moment
  abbrev pub tried : Account → List (((secret code : String) → Bool) × String) → Account
  tried a [] = a
  tried a ((totp, code) ∷ ts) = tried (mfa_verify strip digest totp a (some "mfa") code).0 ts

  -- none of them gave tokens
  abbrev pub all_wrong : Account → List (((secret code : String) → Bool) × String) → Bool
  all_wrong a [] = true
  all_wrong a ((totp, code) ∷ ts) =
      not (is_tokens strip digest (mfa_verify strip digest totp a (some "mfa") code).1)
      && all_wrong (mfa_verify strip digest totp a (some "mfa") code).0 ts

  abbrev pub is_open : Account → Bool
  is_open a = a.user.is_active && a.user.mfa_enabled && has_secret a.user.totp_secret

  wrong :
      (totp : (secret code : String) → Bool) (a : Account) (n : ℕ) (code : String)
      → is_open a ≡ true
      → a.attempts ≡ some n
      → is_tokens strip digest (mfa_verify strip digest totp a (some "mfa") code).1 ≡ false
      → (is_open (mfa_verify strip digest totp a (some "mfa") code).0 ≡ true)
        × ((mfa_verify strip digest totp a (some "mfa") code).0.attempts ≡ some (suc n))
  unfolding mfa_verify mfa_throttle clear_throttle check_mfa_code
  wrong totp a n code o c h = ground (arith, eq_refl "mfa", h)

  locked :
      (totp : (secret code : String) → Bool) (a : Account) (n : ℕ) (code : String)
      → is_open a ≡ true
      → a.attempts ≡ some n
      → 8 ≤ n
      → (mfa_verify strip digest totp a (some "mfa") code).1
        ≡ raise 429 "Too many MFA attempts — try again in a few minutes"
  unfolding mfa_verify mfa_throttle
  locked totp a n code o c h = ground (arith, eq_refl "mfa")

  tried_from :
      (a : Account) (n : ℕ) (ts : List (((secret code : String) → Bool) × String))
      → is_open a ≡ true
      → a.attempts ≡ some n
      → all_wrong a ts ≡ true
      → (is_open (tried a ts) ≡ true) × ((tried a ts).attempts ≡ some (n + length ts))
  tried_from a n [] o c w = (o, ground (arith, c))
  tried_from a n ((totp, code) ∷ ts) o c w =
      let (o', c') = wrong totp a n code o c (ground (arith, w)) in
      let (o'', c'') =
        tried_from (mfa_verify strip digest totp a (some "mfa") code).0 (suc n) ts o' c'
          (ground (arith, w)) in
      (o'', ground (arith, c''))

  -- Redis counts the attempts. After eight codes that were refused with a valid challenge, and until Redis
  -- forgets the counter, the next code is not even looked at: the answer is 429, also for the right code.
  pub tried-throttled :
      (a : Account) (n : ℕ) (ts : List (((secret code : String) → Bool) × String))
      (totp : (secret code : String) → Bool) (code : String)
      → is_open a ≡ true
      → a.attempts ≡ some n
      → all_wrong a ts ≡ true
      → 8 ≤ length ts
      → (mfa_verify strip digest totp (tried a ts) (some "mfa") code).1
        ≡ raise 429 "Too many MFA attempts — try again in a few minutes"
  tried-throttled a n ts totp code o c w l =
      let (o', c') = tried_from a n ts o c w in
      locked totp (tried a ts) (n + length ts) code o' c' (omega (arith, l))
