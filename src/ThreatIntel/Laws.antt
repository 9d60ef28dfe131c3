-- ===== src/ThreatIntel/Laws.antt =====
-- When an indicator is called clean, and what the rows of an answer hold.
use socblitz.Common.{
  String, Bool, true, false, ◌≡◌, ◌⊎◌, inl, inr, refl, Option, none, some, List, [], ◌∷◌, length,
  ◌≤◌, or_else, is_some, arith, sym, ap, ◌∙◌, not, if◌then◌else◌, Bool-cases, Option-cases,
}
use socblitz.Common.Json.{Json, Fields, get}
use socblitz.ThreatIntel.{
  Lookup, ThreatIntel, Event, act, run, verdict_label, rows, source_rows, or_dash, entries, truth,
}

clean_ne : (◌≡◌ {A = String} "unknown" "clean") → ⊥
clean_ne e = cc e

malicious_ne : (◌≡◌ {A = String} "malicious" "clean") → ⊥
malicious_ne e = cc e

-- the label where the server gives none
abbrev unsaid_label : Option (List (String × Fields)) → Bool → String
unsaid_label sources malicious =
    if not (is_some sources) then "unknown" else if malicious then "malicious" else "clean"

unsaid :
    (sources : Option (List (String × Fields))) (malicious : Bool)
    → unsaid_label sources malicious ≡ "clean"
    → (is_some sources ≡ true) × (malicious ≡ false)
unsaid none malicious h = absurd (clean_ne h)
unsaid (some ss) true h = absurd (malicious_ne h)
unsaid (some ss) false h = (refl, refl)

-- An indicator is called clean only when the server's verdict says so, or when the server gives no verdict
-- in words, has the sources and does not call it malicious. An answer without sources never reads as clean.
pub verdict_label-clean :
    (r : Lookup)
    → verdict_label r ≡ "clean"
    → (r.status ≡ some "clean")
      ⊎ ((r.status ≡ none) × (is_some r.sources ≡ true) × (r.malicious ≡ false))
unfolding verdict_label
verdict_label-clean r h = elim (Option-cases r.status) [
  | inl n ↦
      let u =
        unsaid r.sources r.malicious
          (sym (ap (λ o. or_else o (unsaid_label r.sources r.malicious)) n) ∙ h) in
      inr (n, u.0, u.1)
  | inr (s, e) ↦
      inl (e ∙ ap some (sym (ap (λ o. or_else o (unsaid_label r.sources r.malicious)) e) ∙ h))
]

or_dash-length : (rs : List (String × Json)) → 1 ≤ length (or_dash rs)
or_dash-length [] = omega arith
or_dash-length (r ∷ rs) = omega arith

source_rows-length : (o : Option Json) (fs : Fields) → 1 ≤ length (source_rows o fs)
source_rows-length none fs = or_dash-length (entries fs)
source_rows-length (some error) fs = elim (Bool-cases (truth error)) [
  | inl e ↦ rw e (omega arith)
  | inr e ↦ rw e (or_dash-length (entries fs))
]

-- Each source of an answer has a row, so that its name is shown.
pub rows-length : (fs : Fields) → 1 ≤ length (rows fs)
unfolding rows
rows-length fs = source_rows-length (get "error" fs) fs

-- While a lookup is awaited no result is shown.
abbrev IsSettled : ThreatIntel → Type 0
IsSettled p = (p.loading ≡ false) ⊎ (p.result ≡ none)

act-IsSettled : (p : ThreatIntel) (e : Event) → IsSettled p → IsSettled (act p e).0
unfolding act
act-IsSettled p e h = ground arith

run-IsSettled : (p : ThreatIntel) (es : List Event) → IsSettled p → IsSettled (run p es)
unfolding run
run-IsSettled p [] h = h
run-IsSettled p (e ∷ es) h = run-IsSettled (act p e).0 es (act-IsSettled p e h)
