-- ===== src/Forensics/Laws.antt =====
-- What the page says of an endpoint's last contact, and whose results it asks for.
use socblitz.Common.{
  ℕ, zero, suc, leb, ◌&&◌, String, Bool, true, false, ◌==◌, ◌<◌, ◌-◌, ◌≡◌, ◌↔◌, refl, sym, ap, ◌∙◌,
  Option, none, some, List, [], ◌∷◌, All, get_elem?, arith, eq_of_==, eq_refl, Bool-cases,
  Option-cases, false, inl, inr,
}
use socblitz.Common.Json.{str}
use socblitz.Api.{intel, forensics_results}
use socblitz.Forensics.{
  Client, Flow, Forensics, Event, ViewFlow, viewed, viewed_flow, result_artifacts, Seen, last_seen,
  minutes_ago, hours_ago, flows_loaded, open_flow, opened, act, run, results_query, online,
  age_seen, keep_flows, shown_flows,
}

-- the numbers of minutes and hours that may be printed
abbrev pub in_range : Seen → Bool
in_range (minutes_ago m) = leb 2 m && leb m 60
in_range (hours_ago h) = leb 1 h && leb h 24
in_range _ = true

-- An endpoint that was last seen within the last day is shown as online, or with 2 to 60 minutes, or with 1
-- to 24 hours: whatever the clock says, no other number of minutes or hours is printed.
pub last_seen-in_range : (now usec : ℕ) → in_range (last_seen now usec) ≡ true
unfolding last_seen age_seen
last_seen-in_range now usec = ground arith

-- An endpoint is shown as online exactly when its last contact is known and less than two minutes ago.
pub last_seen-online :
    (now usec : ℕ) → (last_seen now usec ≡ online) ↔ (0 < usec × (now - usec < 120000000))
unfolding last_seen
last_seen-online now usec = ground arith

-- What the server says of the endpoint that a flow ran on.
module _ (owner : String → String) where
  abbrev pub IsOwned : String → List Flow → Type 0
  IsOwned id fs = All (λ f. owner f.session_id ≡ id) fs

  -- an answer of the flows' query holds flows of the endpoint that it was asked for
  abbrev pub IsAnswer : Event → Type 0
  IsAnswer (flows_loaded id fs) = IsOwned id fs
  IsAnswer _ = Unit

  abbrev is_flows : Event → Bool
  is_flows (flows_loaded id fs) = true
  is_flows _ = false

  -- the flow that is viewed ran on the endpoint that is selected
  abbrev views : Option Client → Option ViewFlow → Bool
  views c none = true
  views none (some v) = false
  views (some c) (some v) = owner v.flow_id == c.client_id

  abbrev AllOwned : (String → List Flow) → Type 0
  AllOwned flows = (key : String) → IsOwned key (flows key)

  keep_flows-AllOwned :
      (flows : String → List Flow) (id : String) (fs : List Flow)
      → AllOwned flows
      → IsOwned id fs
      → AllOwned (keep_flows flows id fs)
  unfolding keep_flows
  keep_flows-AllOwned flows id fs h k key = elim (Bool-cases (key == id)) [
    | inl e ↦ rw (e, eq_of_== key id e) k
    | inr e ↦ rw e (h key)
  ]

  owned-get :
      (id : String) (fs : List Flow) (i : ℕ)
      → IsOwned id fs
      → (f : Flow) → get_elem? fs i ≡ some f
      → owner f.session_id ≡ id
  owned-get id [] i h f e = cc
  owned-get id (g ∷ fs) zero (h, k) f e = cc
  owned-get id (g ∷ fs) (suc i) (h, k) f e = owned-get id fs i k f e

  -- the flow ran on the endpoint
  abbrev ran_on : Option Client → Flow → Bool
  ran_on none f = false
  ran_on (some c) f = owner f.session_id == c.client_id

  views-owned :
      (o : Option Client) (v : Option ViewFlow) (c : Client) (w : ViewFlow)
      → o ≡ some c
      → v ≡ some w
      → views o v ≡ true
      → (owner w.flow_id == c.client_id) ≡ true
  views-owned o v c w s t h = rw (sym (ap (λ u. views u v) s ∙ ap (views (some c)) t)) h

  viewed-views :
      (p : Forensics) (f : Flow) (names : List String)
      → views p.selected p.view_flow ≡ true
      → ran_on p.selected f ≡ true
      → views (viewed p f names).selected (viewed p f names).view_flow ≡ true
  unfolding viewed
  viewed-views p f [] v r = v
  viewed-views p f (a ∷ rest) v r = ground arith

  shown-ran_on :
      (flows : String → List Flow) (o : Option Client) (i : ℕ) (f : Flow)
      → AllOwned flows
      → get_elem? (shown_flows flows o) i ≡ some f
      → ran_on o f ≡ true
  shown-ran_on flows none i f h e = cc
  shown-ran_on flows (some c) i f h e =
      rw (owned-get c.client_id (flows c.client_id) i (h c.client_id) f e, eq_refl c.client_id) refl

  module _ (lower : String → String) where
    act-other_flows :
        (p : Forensics) (e : Event) (key : String)
        → is_flows e ≡ false
        → (act lower p e).0.flows key ≡ p.flows key
    unfolding act
    act-other_flows p (flows_loaded id fs) key n = cc
    act-other_flows p e key n = ground arith

    act-flows :
        (p : Forensics) (e : Event)
        → AllOwned p.flows
        → IsAnswer e
        → AllOwned (act lower p e).0.flows
    unfolding act
    act-flows p (flows_loaded id fs) h k = keep_flows-AllOwned p.flows id fs h k
    act-flows p e h k = λ key. rw (act-other_flows p e key refl) (h key)

    act-views :
        (p : Forensics) (e : Event)
        → AllOwned p.flows
        → views p.selected p.view_flow ≡ true
        → views (act lower p e).0.selected (act lower p e).0.view_flow ≡ true
    unfolding act viewed_flow
    act-views p (open_flow i) h v =
        elim (Option-cases (get_elem? (shown_flows p.flows p.selected) i)) [
          | inl n ↦ rw n v
          | inr (f, e) ↦
              rw e
                (viewed-views p f (result_artifacts f) v (shown-ran_on p.flows p.selected i f h e))
        ]
    act-views p e h v = ground (arith)

    run-views :
        (p : Forensics) (es : List Event)
        → AllOwned p.flows
        → views p.selected p.view_flow ≡ true
        → All IsAnswer es
        → views (run lower p es).selected (run lower p es).view_flow ≡ true
    unfolding run
    run-views p [] h v k = v
    run-views p (e ∷ es) h v (k, ks) =
        run-views (act lower p e).0 es (act-flows p e h k) (act-views p e h v) ks

    -- If the server's answers list, for each endpoint, only flows that ran on it, then whatever has happened
    -- since the page was opened, while the results of a flow are asked for, the flow is one that ran on the
    -- endpoint that is selected.
    pub run-results_query :
        (es : List Event) (c : Client) (v : ViewFlow)
        → All IsAnswer es
        → (run lower opened es).selected ≡ some c
        → (run lower opened es).view_flow ≡ some v
        → (results_query (run lower opened es)
            ≡ some (record {
              key = str "forensics-results" ∷ str c.client_id ∷ str v.flow_id ∷ str v.artifact ∷ [];
              call = intel (forensics_results c.client_id v.flow_id v.artifact);
              enabled = true;
            }))
          × (owner v.flow_id ≡ c.client_id)
    unfolding opened results_query
    run-results_query es c v k s w = (
      rw (s, w) refl,
      eq_of_== (owner v.flow_id) c.client_id (
          views-owned (run lower opened es).selected (run lower opened es).view_flow c v s w
            (run-views opened es (λ _. tt) refl k)),
    )
