-- ===== src/SearchBox/Laws.antt =====
-- What the debounced box sends.
use socblitz.Common.{◌≡◌, refl, ◌⊎◌, inl, none, some, List, [], ◌∷◌, trim, arith}
use socblitz.SearchBox.{SearchBox, Event, type, elapse, opened, act, run}

-- Either the timer runs with the text shown, or that text has been sent.
abbrev IsCurrent : SearchBox → Type 0
IsCurrent b = (b.timer ≡ some b.search) ⊎ ((b.timer ≡ none) × (b.q ≡ trim b.search))

act-IsCurrent : (b : SearchBox) (e : Event) → IsCurrent b → IsCurrent (act b e)
unfolding act
act-IsCurrent b (type s) h = ground arith
act-IsCurrent b elapse h = ground arith

run-IsCurrent : (b : SearchBox) (es : List Event) → IsCurrent b → IsCurrent (run b es)
unfolding run
run-IsCurrent b [] h = h
run-IsCurrent b (e ∷ es) h = run-IsCurrent (act b e) es (act-IsCurrent b e h)

opened-IsCurrent : (es : List Event) → IsCurrent (run opened es)
unfolding opened
opened-IsCurrent es = run-IsCurrent opened es (inl refl)

-- Whatever was typed since the page was opened, and whenever the timer fired in between, once the
-- timer has had time to fire the query sent is the text shown, trimmed, and no timer runs.
pub run-elapse :
    (es : List Event)
    → ((act (run opened es) elapse).q ≡ trim (run opened es).search)
      × ((act (run opened es) elapse).timer ≡ none)
unfolding act
run-elapse es = ground (arith, opened-IsCurrent es)
