-- ===== src/DarkWeb/Trace.antt =====
-- What the dark web page shows while and after it searches.
use socblitz.Common.{
  true, false, ◌≡◌, refl, ◌≢◌, ◌⊎◌, inl, none, some, List, [], ◌∷◌, trim, eq_iff, arith,
}
use socblitz.Common.Json.{Json}
use socblitz.DarkWeb.{
  EntityType, DarkWeb, Event, pick_type, submit_search, search_reply, opened, act, run,
}

-- The page shows that it waits exactly while a search is awaited, and no result meanwhile.
abbrev IsSettled : DarkWeb → Type 0
IsSettled p = (p.loading ≡ p.waiting) × ((p.waiting ≡ false) ⊎ (p.result ≡ none))

act-IsSettled : (p : DarkWeb) (e : Event) → IsSettled p → IsSettled (act p e).0
unfolding act
act-IsSettled p submit_search h = ground arith
act-IsSettled p _ h = ground arith

run-IsSettled : (p : DarkWeb) (es : List Event) → IsSettled p → IsSettled (run p es)
unfolding run
run-IsSettled p [] h = h
run-IsSettled p (e ∷ es) h = run-IsSettled (act p e).0 es (act-IsSettled p e h)

-- Whatever has happened since the page was opened: while it shows that it searches, it shows no
-- result of an earlier search.
pub run-result : (es : List Event) → (run opened es).loading ≡ true → (run opened es).result ≡ none
unfolding opened
run-result es h = ground (arith, run-IsSettled opened es (refl, inl refl))

-- The kind of entity can be changed while a search runs, and the answer is shown all the same: the
-- result of a search for one kind then stands under another one.
pub search_reply-pick_type :
    (p : DarkWeb) (t : EntityType) (j : Json)
    → p.loading ≡ false
    → trim p.query ≢ ""
    → ((act (act (act p submit_search).0 (pick_type t)).0 (search_reply j)).0.result ≡ some j)
      × ((act (act (act p submit_search).0 (pick_type t)).0 (search_reply j)).0.entity_type ≡ t)
unfolding act
search_reply-pick_type p t j l q = ground (arith, eq_iff (trim p.query) "")
