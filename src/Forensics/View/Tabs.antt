-- ===== src/Forensics/View/Tabs.antt =====
-- The buttons for the artifacts of the flow that is viewed.
use socblitz.Common.{
  ℕ, zero, suc, String, Bool, true, ◌==◌, ◌≡◌, ◌≢◌, refl, sym, ap, ◌∙◌, Option, none, some, List,
  [], ◌∷◌, any, map, get_elem?, eq_refl, eq_iff, arith,
}
use socblitz.Forensics.{
  Flow, ViewFlow, Forensics, Event, opened, viewed, viewed_flow, with_artifact, view_artifact,
  result_artifacts, shown_flows, act, run, open_flow, pick_artifact,
}
use socblitz.Forensics.View.{Tab, tab, tabs}

-- the artifact that is viewed is one of those of the flow
abbrev pub is_listed : Option ViewFlow → Bool
is_listed none = true
is_listed (some v) = any (λ a. v.artifact == a) v.artifacts

listed_at :
    (as' : List String) (i : ℕ) (a : String)
    → get_elem? as' i ≡ some a
    → any (λ b. a == b) as' ≡ true
listed_at [] i a h = absurd (cc h)
listed_at (b ∷ bs) zero a h = ground (arith, h, eq_iff a b)
listed_at (b ∷ bs) (suc i) a h = ground (arith, listed_at bs i a h)

listed_with :
    (v : ViewFlow) (o : Option String)
    → ((a : String) → o ≡ some a → any (λ b. a == b) v.artifacts ≡ true)
    → is_listed (some v) ≡ true
    → is_listed (with_artifact v o) ≡ true
listed_with v none l h = h
listed_with v (some a) l h = l a refl

listed_picked :
    (v : Option ViewFlow) (i : ℕ) → is_listed v ≡ true → is_listed (view_artifact v i) ≡ true
unfolding view_artifact
listed_picked none i h = refl
listed_picked (some v) i h = listed_with v (get_elem? v.artifacts i) (listed_at v.artifacts i) h

listed_viewed :
    (p : Forensics) (f : Flow) (as' : List String)
    → is_listed p.view_flow ≡ true
    → is_listed (viewed p f as').view_flow ≡ true
unfolding viewed
listed_viewed p f [] h = h
listed_viewed p f (a ∷ as') h = ground (arith, h, eq_refl a)

listed_opened :
    (p : Forensics) (o : Option Flow)
    → is_listed p.view_flow ≡ true
    → is_listed (viewed_flow p o).view_flow ≡ true
unfolding viewed_flow
listed_opened p none h = h
listed_opened p (some f) h = listed_viewed p f (result_artifacts f) h

-- some button is marked
abbrev pub is_marked : List Tab → Bool
is_marked ts = any (λ t. t.is_active) ts

marked_listed :
    (a : String) (as' : List String) → is_marked (map (tab a) as') ≡ any (λ b. a == b) as'
marked_listed a [] = refl
marked_listed a (b ∷ bs) = ground (arith, marked_listed a bs)

module _ (lower : String → String) where
  act-is_listed :
      (p : Forensics) (e : Event)
      → is_listed p.view_flow ≡ true
      → is_listed (act lower p e).0.view_flow ≡ true
  unfolding act
  act-is_listed p (open_flow i) h = listed_opened p (get_elem? (shown_flows p.flows p.selected) i) h
  act-is_listed p (pick_artifact i) h = listed_picked p.view_flow i h
  act-is_listed p _ h = ground (arith, h)

  run-is_listed :
      (p : Forensics) (es : List Event)
      → is_listed p.view_flow ≡ true
      → is_listed (run lower p es).view_flow ≡ true
  unfolding run
  run-is_listed p [] h = h
  run-is_listed p (e ∷ es) h = run-is_listed (act lower p e).0 es (act-is_listed p e h)

  -- Whatever has happened since the page was opened: where the flow that is viewed has buttons for its artifacts,
  -- one of them is marked as the one that is viewed.
  pub run-is_marked :
      (es : List Event) (v : ViewFlow)
      → (run lower opened es).view_flow ≡ some v
      → tabs v ≢ []
      → is_marked (tabs v) ≡ true
  unfolding opened tabs
  run-is_marked es v h n =
      let l : is_listed (some v) ≡ true = sym (ap is_listed h) ∙ run-is_listed opened es refl in
      ground (arith, n, marked_listed v.artifact v.artifacts, l)
