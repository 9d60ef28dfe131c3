-- ===== src/Examples/CaseDetails.antt =====
-- Examples for frontend/src/pages/CaseDetail.tsx.
use socblitz.CaseDetail.Frame
use socblitz.CaseDetail.Frame.Report.{asked}
use socblitz.Common.{
  String, ◌≡◌, refl, ◌≢◌, All, length, true, false, none, List, [], ◌∷◌, arith, trim, eq_iff,
}
use socblitz.Common.Json.{str, obj, null, field, end}
use socblitz.Ui.{calls}
use socblitz.CaseDetail.Header.{
  dialog_updated, Case, Event, opened, act, run, pick_status, pick_classification,
  type_closure_note, confirm, listed,
}
use socblitz.Api.{cases, update_case}
use socblitz.CaseDetail.Dialog.{filling, confirm-filling}
use socblitz.CaseDetail.Verdict.{keeps_verdict, calls-keeps_verdict}
use socblitz.CaseDetail.Timeline
use socblitz.CaseDetail.Timeline.{Timeline, Technique, matches, pick}
use socblitz.CaseDetail.Observables
use socblitz.CaseDetail.Observables.{Observable, correlated, expand, edit, edited, save_edit}
use socblitz.CaseDetail.Register
use socblitz.CaseDetail.Writing
use socblitz.CaseDetail.Queries.{invalidated}
use socblitz.CaseDetail.Refresh.{
  Refreshes, observables_list, register_list, writing_list, answers-Refreshes,
}

abbrev unclassified : Case
unclassified = record { status = "open"; classification = none; assigned_to = none }

abbrev closing : List (Case × Event)
closing =
    (unclassified, pick_status "resolved")
    ∷ (unclassified, pick_classification "false_positive")
    ∷ (unclassified, type_closure_note "scanner")
    ∷ []

calls-keeps_verdict_example :
    All
      (λ call. keeps_verdict unclassified call ≡ true)
      (calls (act "c1" none unclassified (run "c1" none opened closing) (confirm false)).1)
unfolding listed
calls-keeps_verdict_example =
    calls-keeps_verdict "c1" none closing unclassified (confirm false) (refl, (refl, (tt, tt)))

-- the dialog sends one update
one_update :
    length (calls (act "c1" none unclassified (run "c1" none opened closing) (confirm false)).1) ≡ 1
unfolding act run opened listed
one_update = refl

abbrev technique : String → String → Technique
technique id name = record { id = id; name = name }

abbrev techniques : List Technique
techniques =
    technique "T1059" "command and scripting"
    ∷ technique "T1110" "brute force"
    ∷ technique "T1021" "remote services"
    ∷ []

abbrev searching : Timeline
searching = record { note_draft = "seen"; timeline_mitre = "T1110" ∷ []; query = "T1" }

abbrev same_letters : String → String
same_letters s = s

-- the technique that is selected already is not offered
two_offered : length (matches same_letters techniques searching) ≡ 2
unfolding matches Timeline.selected trim
two_offered = refl

abbrev address : Observable
address = record { id = "o1"; value = "10.0.0.1"; description = ""; correlated_count = 2 }

drafted : trim searching.note_draft ≢ ""
unfolding trim
drafted e = ground (arith, eq_iff "seen" "")

answers-Refreshes_example :
    ((o : Observables.Observables) (e : Observables.Event)
      → Refreshes "c1" (observables_list e) (invalidated (Observables.act "c1" o e).1))
    × ((r : Register.Register) (e : Register.Event)
        → Refreshes "c1" (register_list e) (invalidated (Register.act "c1" r e).1))
    × ((w : Writing.Writing) (e : Writing.Event)
        → Refreshes "c1" (writing_list e) (invalidated (Writing.act "c1" w e).1))
answers-Refreshes_example = answers-Refreshes "c1"

confirm-filling_example :
    (calls (act "c1" none unclassified opened (pick_status "closed")).1 ≡ [])
    × (calls
          (act "c1" none unclassified
            (run "c1" none opened (filling unclassified "closed" "other" ""))
            (confirm false)).1
        ≡ cases (
            update_case "c1" (
              obj (
                field "status"
                  (str "closed")
                  (field "classification" (str "other") (field "closure_note" null end)))))
          ∷ [])
    × ((act "c1" none unclassified
          (run "c1" none opened (filling unclassified "closed" "other" ""))
          dialog_updated).0.closing_modal
        ≡ none)
unfolding listed
confirm-filling_example =
    confirm-filling "c1" none unclassified opened "closed" "other" "" refl refl

-- two clicks on the button before the answer, and one after it
abbrev downloads : List Frame.Event
downloads =
    Frame.press_report ∷ Frame.press_report ∷ Frame.download_failed ∷ Frame.press_report ∷ []

two_reports : asked "c1" Frame.opened downloads ≡ 2
unfolding Frame.opened Frame.act
two_reports = refl
