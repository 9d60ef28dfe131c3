-- ===== src/Server/UpdateCase/Pages.antt =====
-- The updates of the case page and of the case list, frontend/src/pages/CaseDetail.tsx and Cases.tsx, as the
-- server takes them.
use socblitz.Common.{
  String, Bool, true, false, not, ◌==◌, ◌≡◌, ◌≢◌, refl, ap, eq_of_==, Option, none, some, List, [],
  All, truthy, eq_iff, eq_refl, Bool-cases, inl, inr, arith,
}
use socblitz.Common.Json.{Fields, str, nullable, obj, get}
use socblitz.Api.{Call, cases}
use socblitz.Ui.{calls}
use socblitz.CaseDetail.Header.{
  Case, Header, opened, Event, pick_status, confirm, listed, classification_options,
  closing_statuses, is_classified, act, run,
}
use socblitz.CaseDetail.Verdict.{IsOffered, IsDrafted, run-IsDrafted, first-listed}
use socblitz.Cases.Table.{resolve_case}
use socblitz.Server.UpdateCase.{lacks_classification, is_closing, py_truth}

-- the row on the server has the classification that the page shows
abbrev pub Shows : Fields → Case → Type 0
Shows row c = get "classification" row ≡ some (nullable c.classification)

-- an update of a case that the server does not refuse
abbrev pub is_accepted : Fields → Call → Bool
is_accepted row (cases (socblitz.Api.update_case id (obj payload))) =
    not (lacks_classification row payload)
is_accepted row c = true

not_empty : listed "" classification_options ≡ false
unfolding listed
not_empty = refl

listed-truthy : (cl : String) → listed cl classification_options ≡ true → truthy cl ≡ true
listed-truthy cl h = elim (Bool-cases (cl == "")) [
  | inl e ↦
      absurd
        (ground (arith, h, not_empty, ap (λ s. listed s classification_options) (eq_of_== cl "" e)))
  | inr e ↦ rw e refl
]

truth_of : (o : Option String) → py_truth (some (nullable o)) ≡ is_classified o
truth_of none = refl
truth_of (some s) = refl

closing-listed : (s : String) → is_closing (some (str s)) ≡ true → listed s closing_statuses ≡ true
unfolding listed
closing-listed s h =
    ground (arith, eq_iff s "resolved", eq_iff s "closed", eq_iff "resolved" s, eq_iff "closed" s)

module _ (id : String) (user_id : Option String) where
  act-accepted :
      (row : Fields) (c : Case) (h : Header) (e : Event)
      → IsDrafted h
      → Shows row c
      → All (λ call. is_accepted row call ≡ true) (calls (act id user_id c h e).1)
  unfolding act lacks_classification
  act-accepted row c h (pick_status s) d w =
      ground (arith, w, truth_of c.classification, closing-listed s)
  act-accepted row c h (confirm p) d w = ground (arith, listed-truthy h.classification_draft d)
  act-accepted row c h _ d w = ground arith

-- From the moment the case page is opened, whatever values the selection boxes offer are picked: where the
-- server's case has the classification that the page shows, it refuses no update of the page for want of a
-- classification.
pub calls-accepted :
    (id : String) (user_id : Option String) (es : List (Case × Event)) (row : Fields) (c : Case)
    (e : Event)
    → All (λ x. IsOffered x.1) es
    → Shows row c
    → All
        (λ call. is_accepted row call ≡ true)
        (calls (act id user_id c (run id user_id opened es) e).1)
unfolding opened
calls-accepted id user_id es row c e o w =
    act-accepted id user_id row c (run id user_id opened es) e
      (run-IsDrafted id user_id opened es o first-listed) w

-- The button Resolve of the case list stands in the row of a case in progress. Where the case has no
-- classification, the server refuses the one update that the button sends.
pub resolve_case-refused :
    (id status : String) (row : Fields) (c : Case)
    → status ≡ "in_progress"
    → Shows row c
    → is_classified c.classification ≡ false
    → calls (resolve_case id status) ≢ []
      × All (λ call. is_accepted row call ≡ false) (calls (resolve_case id status))
unfolding resolve_case lacks_classification
resolve_case-refused id status row c s w k =
    ground (arith, w, truth_of c.classification, eq_iff status "in_progress", eq_refl "resolved")
