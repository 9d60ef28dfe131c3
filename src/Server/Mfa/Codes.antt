-- ===== src/Server/Mfa/Codes.antt =====
-- What holds of an account over any sequence of calls: the secret, and the use of backup codes.
use socblitz.Common.{
  ℕ, String, Bool, true, false, not, ◌||◌, ◌==◌, ◌≡◌, refl, Option, List, [], ◌∷◌, any, filter,
  arith,
}
use socblitz.Server.{Answer, reply}
use socblitz.Server.Mfa.{
  Account, LoginResponse, tokens, has_secret, fits_secret, without_spaces, mfa_throttle,
  clear_throttle, check_mfa_code, mfa_verify, mfa_setup, mfa_enable, mfa_disable, admin_reset_mfa,
}

-- A call that may change the account, with what the clock and the password give then.
pub data Event : Type 0 where
  verify : (totp : (secret code : String) → Bool) (kind : Option String) (code : String) → Event
  setup : (session : Answer Unit) (secret : String) → Event
  enable :
      (totp : (secret code : String) → Bool) (session : Answer Unit) (code : String)
      (backup_codes : List String)
      → Event
  disable :
      (totp : (secret code : String) → Bool) (password_ok : String → Bool) (session : Answer Unit)
      (password code : String)
      → Event
  reset : (session : Answer Unit) → Event
  -- Redis forgets the counter, or cannot be reached
  count : (attempts : Option ℕ) → Event

module _ (strip : String → String) (digest : String → String) where
  unfoldable pub step : Account → Event → Account
  step a (verify totp kind code) = (mfa_verify strip digest totp a kind code).0
  step a (setup session secret) = (mfa_setup session a secret).0
  step a (enable totp session code codes) = (mfa_enable strip digest totp session a code codes).0
  step a (disable totp password_ok session password code) =
      (mfa_disable strip digest totp password_ok session a password code).0
  step a (reset session) = (admin_reset_mfa session a).0
  step a (count attempts) = record a { attempts = attempts }

  unfoldable pub run : Account → List Event → Account
  run a [] = a
  run a (e ∷ es) = run (step a e) es

  -- the second factor is on only with a secret
  abbrev pub is_enrolled : Account → Bool
  is_enrolled a = not a.user.mfa_enabled || has_secret a.user.totp_secret

  step-is_enrolled :
      (a : Account) (e : Event) → is_enrolled a ≡ true → is_enrolled (step a e) ≡ true
  unfolding step mfa_verify mfa_setup mfa_enable mfa_disable admin_reset_mfa mfa_throttle
      clear_throttle check_mfa_code
  step-is_enrolled a e h = ground (arith, h)

  -- Whatever calls are made for an account, in any order and with any answer of the clock, the second factor is
  -- on only while the account has a secret, if that was so at the start.
  pub run-is_enrolled :
      (a : Account) (es : List Event) → is_enrolled a ≡ true → is_enrolled (run a es) ≡ true
  unfolding run
  run-is_enrolled a [] h = h
  run-is_enrolled a (e ∷ es) h = run-is_enrolled (step a e) es (step-is_enrolled a e h)

  -- the digest is not on the list
  abbrev pub lacks : String → List String → Bool
  lacks d hs = not (any (λ h. h == d) hs)

  lacks-filter :
      (d k : String) (hs : List String)
      → lacks d hs ≡ true
      → lacks d (filter (λ h. not (h == k)) hs) ≡ true
  lacks-filter d k [] l = refl
  lacks-filter d k (h ∷ hs) l = ground (arith, lacks-filter d k hs)

  lacks-own : (d : String) (hs : List String) → lacks d (filter (λ h. not (h == d)) hs) ≡ true
  lacks-own d [] = refl
  lacks-own d (h ∷ hs) = ground (arith, lacks-own d hs)

  abbrev pub is_enable : Event → Bool
  is_enable (enable _ _ _ _) = true
  is_enable _ = false

  step-lacks :
      (d : String) (a : Account) (e : Event)
      → is_enable e ≡ false
      → lacks d a.user.mfa_backup_codes ≡ true
      → lacks d (step a e).user.mfa_backup_codes ≡ true
  unfolding step mfa_verify mfa_setup mfa_disable admin_reset_mfa mfa_throttle clear_throttle
      check_mfa_code
  step-lacks d a (verify totp kind c) n l =
      ground (arith, lacks-filter d (digest (without_spaces (strip c))) a.user.mfa_backup_codes)
  step-lacks d a (disable totp ok session p c) n l = ground arith
  step-lacks d a (enable totp session c cs) n l = cc
  step-lacks d a (setup session s) n l = ground arith
  step-lacks d a (reset session) n l = ground (arith, l)
  step-lacks d a (count k) n l = l

  run-lacks :
      (d : String) (a : Account) (es : List Event)
      → any is_enable es ≡ false
      → lacks d a.user.mfa_backup_codes ≡ true
      → lacks d (run a es).user.mfa_backup_codes ≡ true
  unfolding run
  run-lacks d a [] n l = l
  run-lacks d a (e ∷ es) n l = ground (arith, step-lacks d a e, run-lacks d (step a e) es)

  -- the digest that a code is compared by
  abbrev pub digest_of : String → String
  digest_of code = digest (without_spaces (strip code))

  -- the code is one of the authenticator at that moment
  abbrev pub is_current : (totp : (secret code : String) → Bool) → Account → String → Bool
  is_current totp a code = fits_secret totp a.user.totp_secret (without_spaces (strip code))

  abbrev pub is_tokens : Answer LoginResponse → Bool
  is_tokens (reply tokens) = true
  is_tokens _ = false

  spent :
      (a : Account) (totp : (secret code : String) → Bool) (kind : Option String) (code : String)
      → is_current totp a code ≡ false
      → is_tokens (mfa_verify strip digest totp a kind code).1 ≡ true
      → lacks (digest_of code) (step a (verify totp kind code)).user.mfa_backup_codes ≡ true
  unfolding step mfa_verify mfa_throttle clear_throttle check_mfa_code
  spent a totp kind code t h = ground (arith, h, lacks-own (digest_of code) a.user.mfa_backup_codes)

  refused_without :
      (a : Account) (totp : (secret code : String) → Bool) (kind : Option String) (code : String)
      → is_current totp a code ≡ false
      → lacks (digest_of code) a.user.mfa_backup_codes ≡ true
      → is_tokens (mfa_verify strip digest totp a kind code).1 ≡ false
  unfolding mfa_verify mfa_throttle clear_throttle check_mfa_code
  refused_without a totp kind code t l = ground arith

  -- A backup code signs in once. After it was accepted, whatever calls are made for the account other than
  -- enrolling again, and whatever the clock and Redis do, no verification of that code gives tokens, unless it
  -- is by chance a code of the authenticator at that moment.
  pub run-spent :
      (a : Account) (totp totp' : (secret code : String) → Bool) (kind kind' : Option String)
      (code : String) (es : List Event)
      → is_current totp a code ≡ false
      → is_tokens (mfa_verify strip digest totp a kind code).1 ≡ true
      → any is_enable es ≡ false
      → is_current totp' (run (step a (verify totp kind code)) es) code ≡ false
      → is_tokens
          (mfa_verify strip digest totp' (run (step a (verify totp kind code)) es) kind' code).1
        ≡ false
  run-spent a totp totp' kind kind' code es t h n t' =
      refused_without (run (step a (verify totp kind code)) es) totp' kind' code t' (
        run-lacks (digest_of code) (step a (verify totp kind code)) es n
          (spent a totp kind code t h))
