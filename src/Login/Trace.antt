-- ===== src/Login/Trace.antt =====
-- What holds of the sign-in page over every sequence of events.
use socblitz.Common.{
  String, ◌≡◌, refl, ◌≢◌, ◌⊎◌, inl, inr, Bool, true, false, ◌||◌, none, some, List, [], ◌∷◌, ◌==◌,
  eq_refl, is_some, length, any, Option-cases, truthy, trim, ◌&&◌, not, All, Bool-cases, arith,
}
use socblitz.Api.{AuthState, Call, account, login, mfa_verify}
use socblitz.Ui.{calls, Effect, toast_error, no_detail, text, field_errors}
use socblitz.Login.{
  LoginPage, mfa_required, granted, Event, login_reply, verify_reply, fail, submit_code,
  submit_login, start, act, run, Failure, login_error_message, timed_out, unreachable, refused,
  second_step,
}

-- a reply that carries an access token
abbrev pub is_grant : Event → Bool
is_grant (login_reply (granted _)) = true
is_grant (verify_reply _) = true
is_grant _ = false

auth-act : (p : LoginPage) (e : Event) → is_grant e ≡ false → (act p e).0.auth ≡ p.auth
unfolding act
auth-act p (login_reply (granted d)) h = cc
auth-act p (login_reply (mfa_required t)) h = ground arith
auth-act p _ h = ground arith

-- Only a reply that carries an access token changes the store of the signed-in user: along a
-- sequence of events without one, the store stays as it was.
pub auth-run :
    (p : LoginPage) (es : List Event) → any is_grant es ≡ false → (run p es).auth ≡ p.auth
unfolding run
auth-run p [] h = refl
auth-run p (e ∷ es) h = ground (arith, auth-act p e, auth-run (act p e).0 es)

-- the server's demand for the second factor, with the token `t`
abbrev demands : String → Event → Bool
demands t (login_reply (mfa_required s)) = s == t
demands t _ = false

abbrev pub demanded : String → List Event → Bool
demanded t es = any (demands t) es

mfa_token-act :
    (p : LoginPage) (e : Event) (t : String)
    → (act p e).0.mfa_token ≡ some t
    → (p.mfa_token ≡ some t) ⊎ (demands t e ≡ true)
unfolding act
mfa_token-act p (login_reply (mfa_required s)) t h = ground (arith, eq_refl t)
mfa_token-act p _ t h = ground arith

mfa_token-run :
    (p : LoginPage) (es : List Event) (t : String)
    → (run p es).mfa_token ≡ some t
    → (p.mfa_token ≡ some t) ⊎ (demanded t es ≡ true)
unfolding run
mfa_token-run p [] t h = inl h
mfa_token-run p (e ∷ es) t h = ground (arith, mfa_token-act p e t, mfa_token-run (act p e).0 es t h)

mfa_token-start :
    (auth : AuthState) (es : List Event) (t : String)
    → (run (start auth) es).mfa_token ≡ some t
    → demanded t es ≡ true
unfolding start
mfa_token-start auth es t h = ground (arith, mfa_token-run (start auth) es t h)

-- A verification carries a token that the server has sent.
abbrev pub IsDemanded : List Event → Call → Type 0
IsDemanded es (account (mfa_verify t code)) = demanded t es ≡ true
IsDemanded es _ = Unit

-- What an event can send: nothing, the sign-in, or the code with the token that the page holds.
data Sends (p : LoginPage) (cs : List Call) : Type 0 where
  nothing : cs ≡ [] → Sends p cs
  signs_in : p.loading ≡ false → cs ≡ account (login p.email p.password) ∷ [] → Sends p cs
  verifies :
      (t : String)
      → p.loading ≡ false
      → p.mfa_token ≡ some t
      → cs ≡ account (mfa_verify t p.code) ∷ []
      → Sends p cs

submit_code-Sends : (p : LoginPage) → Sends p (calls (act p submit_code).1)
unfolding act
submit_code-Sends p = elim (Option-cases p.mfa_token) [
  | inl e ↦ nothing (ground arith)
  | inr (t, e) ↦ elim (Bool-cases (truthy t && not p.loading && truthy (trim p.code))) [
    | inl b ↦ verifies t (ground arith) e (ground arith)
    | inr b ↦ nothing (ground arith)
  ]
]

submit_login-Sends : (p : LoginPage) → Sends p (calls (act p submit_login).1)
unfolding act
submit_login-Sends p = elim (Bool-cases (is_some (second_step p.mfa_token) || p.loading)) [
  | inl b ↦ nothing (ground arith)
  | inr b ↦ signs_in (ground arith) (ground arith)
]

act-Sends : (p : LoginPage) (e : Event) → Sends p (calls (act p e).1)
unfolding act
act-Sends p submit_login = submit_login-Sends p
act-Sends p submit_code = submit_code-Sends p
act-Sends p _ = nothing (ground arith)

Sends-IsDemanded :
    (es : List Event) (p : LoginPage) {cs : List Call}
    → ((t : String) → p.mfa_token ≡ some t → demanded t es ≡ true)
    → Sends p cs
    → All (IsDemanded es) cs
Sends-IsDemanded es p known (nothing e) = rw e tt
Sends-IsDemanded es p known (signs_in _ e) = rw e (tt, tt)
Sends-IsDemanded es p known (verifies t _ m e) = rw e (known t m, tt)

-- From the moment the page is opened, whatever the events, a verification that an event sends
-- carries a token that an earlier reply of the server demanded.
pub calls-IsDemanded :
    (auth : AuthState) (es : List Event) (e : Event)
    → All (IsDemanded es) (calls (act (run (start auth) es) e).1)
calls-IsDemanded auth es e =
    Sends-IsDemanded es (run (start auth) es) (mfa_token-start auth es)
      (act-Sends (run (start auth) es) e)

-- The page shows that it waits exactly while a call is awaited.
abbrev IsSettled : LoginPage → Type 0
IsSettled p = p.loading ≡ is_some p.waiting

act-IsSettled : (p : LoginPage) (e : Event) → IsSettled p → IsSettled (act p e).0
unfolding act
act-IsSettled p submit_code h = ground arith
act-IsSettled p _ h = ground arith

run-IsSettled : (p : LoginPage) (es : List Event) → IsSettled p → IsSettled (run p es)
unfolding run
run-IsSettled p [] h = h
run-IsSettled p (e ∷ es) h = run-IsSettled (act p e).0 es (act-IsSettled p e h)

act_sending :
    (p : LoginPage) (e : Event)
    → calls (act p e).1 ≢ []
    → (p.loading ≡ false) × (length (calls (act p e).1) ≡ 1) × (is_some (act p e).0.waiting ≡ true)
unfolding act
act_sending p submit_login h = ground arith
act_sending p _ h = ground arith

-- At most one call is awaited at a time: after any events since the page was opened, an event that
-- sends a call finds none awaited, sends just that one, and leaves the page waiting for it.
pub one_call_awaited :
    (auth : AuthState) (es : List Event) (e : Event)
    → calls (act (run (start auth) es) e).1 ≢ []
    → ((run (start auth) es).waiting ≡ none)
      × (length (calls (act (run (start auth) es) e).1) ≡ 1)
      × (is_some (act (run (start auth) es) e).0.waiting ≡ true)
unfolding start
one_call_awaited auth es e h =
    ground (arith, act_sending (run (start auth) es) e h, run-IsSettled (start auth) es refl)

abbrev pub is_error_toast : List Effect → Bool
is_error_toast (toast_error (_ ∷ _) ∷ []) = true
is_error_toast _ = false

-- A failure of the awaited call, whatever it is, ends the waiting, shows one error message and
-- leaves the store alone.
pub fail-settles :
    (p : LoginPage) (f : Failure)
    → p.waiting ≢ none
    → ((act p (fail f)).0.loading ≡ false)
      × ((act p (fail f)).0.waiting ≡ none)
      × ((act p (fail f)).0.auth ≡ p.auth)
      × (is_error_toast (act p (fail f)).1 ≡ true)
unfolding act login_error_message
fail-settles p timed_out h = ground arith
fail-settles p unreachable h = ground arith
fail-settles p (refused status no_detail) h = ground arith
fail-settles p (refused status (text s)) h = ground arith
fail-settles p (refused status (field_errors j)) h = ground arith
