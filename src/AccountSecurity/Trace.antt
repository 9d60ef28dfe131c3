-- ===== src/AccountSecurity/Trace.antt =====
-- What holds of the account page over every sequence of events.
use socblitz.Common.{
  ◌≡◌, refl, ◌≢◌, ◌⊎◌, inl, inr, String, Bool, true, false, none, some, List, [], ◌∷◌, is_some,
  length, arith,
}
use socblitz.Ui.{calls, Detail}
use socblitz.AccountSecurity.{
  Security, Event, enable_reply, fail, click_setup, setup_reply, opened, act, run,
}

codes-act :
    (m : Bool) (s : Security) (e : Event) (cs : List String)
    → (act m s e).0.backup_codes ≡ some cs
    → (s.backup_codes ≡ some cs) ⊎ (e ≡ enable_reply cs)
unfolding act
codes-act m s (enable_reply ds) cs h = ground arith
codes-act m s _ cs h = ground arith

-- the server has given these codes
abbrev pub WasGiven : List String → List (Bool × Event) → Type 0
WasGiven cs [] = ⊥
WasGiven cs ((m, e) ∷ es) = (e ≡ enable_reply cs) ⊎ WasGiven cs es

codes-run :
    (s : Security) (es : List (Bool × Event)) (cs : List String)
    → (run s es).backup_codes ≡ some cs
    → (s.backup_codes ≡ some cs) ⊎ WasGiven cs es
unfolding run
codes-run s [] cs h = inl h
codes-run s ((m, e) ∷ es) cs h = elim (codes-run (act m s e).0 es cs h) [
  | inr g ↦ inr (inr g)
  | inl k ↦ elim (codes-act m s e cs k) [ inl b ↦ inl b | inr q ↦ inr (inl q) ]
]

-- The backup codes that the page shows, and that its button copies, are codes that an answer of the
-- server to the confirmation of the second factor has given since the page was opened.
pub backup_codes-WasGiven :
    (es : List (Bool × Event)) (cs : List String)
    → (run opened es).backup_codes ≡ some cs
    → WasGiven cs es
unfolding opened
backup_codes-WasGiven es cs h = elim (codes-run opened es cs h) [ inl e ↦ cc | inr g ↦ g ]

abbrev IsSettled : Security → Type 0
IsSettled s = s.busy ≡ is_some s.waiting

act-IsSettled : (m : Bool) (s : Security) (e : Event) → IsSettled s → IsSettled (act m s e).0
unfolding act
act-IsSettled m s (setup_reply d) h = ground arith
act-IsSettled m s _ h = ground arith

run-IsSettled : (s : Security) (es : List (Bool × Event)) → IsSettled s → IsSettled (run s es)
unfolding run
run-IsSettled s [] h = h
run-IsSettled s ((m, e) ∷ es) h = run-IsSettled (act m s e).0 es (act-IsSettled m s e h)

act_sending :
    (m : Bool) (s : Security) (e : Event)
    → calls (act m s e).1 ≢ []
    → (s.busy ≡ false) × (length (calls (act m s e).1) ≡ 1) × (is_some (act m s e).0.waiting ≡ true)
unfolding act
act_sending m s click_setup h = ground arith
act_sending m s _ h = ground arith

-- Of the three calls of the page at most one is awaited at a time: after any events since the page
-- was opened, an event that sends a call finds none awaited and sends just that one.
pub one_mfa_call_awaited :
    (es : List (Bool × Event)) (m : Bool) (e : Event)
    → calls (act m (run opened es) e).1 ≢ []
    → ((run opened es).waiting ≡ none) × (length (calls (act m (run opened es) e).1) ≡ 1)
unfolding opened
one_mfa_call_awaited es m e h =
    ground (arith, act_sending m (run opened es) e h, run-IsSettled opened es refl)

-- A failure of the awaited call, whichever it is, makes the page ready again and keeps all that was
-- typed and shown, so that the call can be tried again.
pub fail-keeps :
    (m : Bool) (s : Security) (d : Detail)
    → s.waiting ≢ none
    → (act m s (fail d)).0 ≡ record s { busy = false; waiting = none }
unfolding act
fail-keeps m s d h = ground arith
