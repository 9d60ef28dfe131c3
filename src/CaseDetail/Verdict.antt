-- ===== src/CaseDetail/Verdict.antt =====
-- The classification of cases that are resolved or closed.
use socblitz.Common.{
  String, ◌≡◌, refl, Bool, true, false, not, ◌||◌, Option, some, List, [], ◌∷◌, All, arith,
}
use socblitz.Common.Json.{Json, str, obj, get}
use socblitz.Api.{Call, cases, update_case}
use socblitz.Ui.{calls}
use socblitz.CaseDetail.Header.{
  status_options, closing_statuses, classification_options, listed, Case, Header, opened, Event,
  pick_status, pick_classification, is_classified, act, run,
}

abbrev closes : Option Json → Bool
closes (some (str s)) = listed s closing_statuses
closes _ = false

abbrev is_verdict : Option Json → Bool
is_verdict (some (str cl)) = listed cl classification_options
is_verdict _ = false

-- An update that sets a closing status carries one of the classifications offered, unless the case
-- has a classification already.
abbrev pub keeps_verdict : Case → Call → Bool
keeps_verdict c (cases (update_case id (obj fs))) =
    not (closes (get "status" fs))
    || is_classified c.classification
    || is_verdict (get "classification" fs)
keeps_verdict c _ = true

-- The two selection boxes give only what they offer.
abbrev pub IsOffered : Event → Type 0
IsOffered (pick_status s) = listed s status_options ≡ true
IsOffered (pick_classification cl) = listed cl classification_options ≡ true
IsOffered _ = Unit

-- The draft is always a classification on offer.
abbrev pub IsDrafted : Header → Type 0
IsDrafted h = listed h.classification_draft classification_options ≡ true

pub first-listed : listed "true_positive" classification_options ≡ true
unfolding listed
first-listed = refl

module _ (id : String) (user_id : Option String) where
  act-IsDrafted :
      (c : Case) (h : Header) (e : Event)
      → IsOffered e
      → IsDrafted h
      → IsDrafted (act id user_id c h e).0
  unfolding act
  act-IsDrafted c h (pick_classification cl) o d = o
  act-IsDrafted c h (pick_status s) o d = ground (arith, first-listed)
  act-IsDrafted c h _ o d = ground arith

  pub run-IsDrafted :
      (h : Header) (es : List (Case × Event))
      → All (λ e. IsOffered e.1) es
      → IsDrafted h
      → IsDrafted (run id user_id h es)
  unfolding run
  run-IsDrafted h [] o d = d
  run-IsDrafted h ((c, e) ∷ es) (o, os) d =
      run-IsDrafted (act id user_id c h e).0 es os (act-IsDrafted c h e o d)

  act-keeps_verdict :
      (c : Case) (h : Header) (e : Event)
      → IsDrafted h
      → All (λ call. keeps_verdict c call ≡ true) (calls (act id user_id c h e).1)
  unfolding act
  act-keeps_verdict c h (pick_status s) d = ground arith
  act-keeps_verdict c h _ d = ground arith

-- From the moment the page is opened, whatever values the selection boxes offer are picked and
-- however the case changes on the server meanwhile: an update that sets the status to resolved or
-- closed carries one of the offered classifications, unless the case is classified already.
pub calls-keeps_verdict :
    (id : String) (user_id : Option String) (es : List (Case × Event)) (c : Case) (e : Event)
    → All (λ x. IsOffered x.1) es
    → All
        (λ call. keeps_verdict c call ≡ true)
        (calls (act id user_id c (run id user_id opened es) e).1)
unfolding opened
calls-keeps_verdict id user_id es c e o =
    act-keeps_verdict id user_id c (run id user_id opened es) e
      (run-IsDrafted id user_id opened es o first-listed)
