-- ===== src/CaseDetail/Timeline.antt =====
-- The timeline of a case: the note to log, and the picker of MITRE techniques.
use socblitz.Common.{
  String, Bool, not, ◌&&◌, ◌||◌, List, [], ◌∷◌, ◌++◌, ◌==◌, truthy, trim, filter, take, any,
  includes, if◌then◌else◌,
}
use socblitz.Api.{cases, add_timeline_event}
use socblitz.Ui.{Effect, send}
use socblitz.CaseDetail.Header.{invalidate_case}

pub record Timeline : Type 0 where
  pub note_draft : String
  pub timeline_mitre : List String
  -- the text in the picker's box
  pub query : String

pub record Technique : Type 0 where
  pub id : String
  pub name : String

unfoldable pub opened : Timeline
opened = record { note_draft = ""; timeline_mitre = []; query = "" }

-- `selected.includes(t.id)`
unfoldable pub selected : List String → String → Bool
selected ids id = any (λ s. s == id) ids

-- `toLowerCase` belongs to the platform and is a parameter.
module _ (lower : String → String) where
  -- what the picker offers
  unfoldable pub matches : List Technique → Timeline → List Technique
  unfolding selected
  matches options t =
      if truthy (trim t.query)
      then take 6 (
          filter
            (λ o.
              not (selected t.timeline_mitre o.id)
              && (includes (lower o.id) (lower t.query) || includes (lower o.name) (lower t.query)))
            options)
      else []

unfoldable pub pick : Timeline → String → Timeline
pick t id = record t { timeline_mitre = t.timeline_mitre ++ id ∷ []; query = "" }

unfoldable pub unpick : Timeline → String → Timeline
unpick t id = record t { timeline_mitre = filter (λ s. not (s == id)) t.timeline_mitre }

unfoldable pub log : String → Timeline → List Effect
log case_id t = send (cases (add_timeline_event case_id (trim t.note_draft) t.timeline_mitre)) ∷ []

-- the button, disabled for a blank note and while a note is being sent
unfoldable pub click_log : String → Timeline → (is_pending : Bool) → List Effect
unfolding log
click_log case_id t is_pending =
    if not (truthy (trim t.note_draft)) || is_pending then [] else log case_id t

-- the key Enter in the box
unfoldable pub press_enter : String → Timeline → (is_pending : Bool) → List Effect
unfolding log
press_enter case_id t is_pending = if truthy (trim t.note_draft) then log case_id t else []

unfoldable pub logged : String → Timeline → Timeline × List Effect
logged case_id t = (record t { note_draft = ""; timeline_mitre = [] }, invalidate_case case_id)
