-- ===== src/SearchBox.antt =====
-- The debounced query box of the alert and event pages: `search` is what the box shows, `q` what is
-- sent, and a timer of 400 ms copies the one to the other. The cleanup of the effect cancels the
-- timer of the text before.
pub mod Laws
use socblitz.Common.{String, Option, none, some, List, [], ◌∷◌, trim, ◌==◌, if◌then◌else◌}

pub record SearchBox : Type 0 where
  pub search : String
  pub q : String
  -- the text captured by the closure of the running timer
  pub timer : Option String

pub data Event : Type 0 where
  type : String → Event
  elapse : Event

-- The effect also runs when the page is opened.
unfoldable pub opened : SearchBox
opened = record { search = ""; q = ""; timer = some "" }

abbrev fire : SearchBox → Option String → SearchBox
fire b none = b
fire b (some s) = record b { q = trim s; timer = none }

-- With the text that is there already the effect does not run again.
unfoldable pub act : SearchBox → Event → SearchBox
act b (type s) = if s == b.search then b else record b { search = s; timer = some s }
act b elapse = fire b b.timer

unfoldable pub run : SearchBox → List Event → SearchBox
run b [] = b
run b (e ∷ es) = run (act b e) es
