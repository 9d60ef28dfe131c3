-- ===== src/AlertDetail/Lifecycle.antt =====
-- The status of an alert under the buttons of the alert list, frontend/src/pages/Alerts.tsx, and of the page
-- of one alert, frontend/src/pages/AlertDetail.tsx.
use socblitz.Common.{
  String, ◌&&◌, ◌≡◌, refl, ◌≢◌, ◌⊎◌, inl, inr, not, truthy, ◌==◌, eq_of_==, Bool-cases, Option,
  none, some, All, eq_iff, arith,
}
use socblitz.Common.Json.{Json, str, get, obj}
use socblitz.Api.{Call, alerts, update_alert}
use socblitz.Ui.{calls}
use socblitz.Alerts as Table
use socblitz.AlertDetail.{
  AlertRow, AlertDetail, Event, alert_loaded, back, triage, resolve, open_case, attach, cancel,
  pick_case, updated, update_failed, triage_alert, resolve_alert, link_to, open_linked, is_unlinked,
  act,
}

-- The diagram of the statuses: a new alert is taken up, and one that is not settled is resolved.
infix 40 ◌⟶◌ ◌⟶*◌
pub data ◌⟶◌ : String → String → Type 0 where
  take_up : "new" ⟶ "in_triage"
  settle : {s : String} → s ≢ "resolved" → s ≢ "false_positive" → s ⟶ "resolved"

pub data ◌⟶*◌ : String → String → Type 0 where
  here : {s : String} → s ⟶* s
  after : {s t u : String} → s ⟶ t → t ⟶* u → s ⟶* u

-- A call that changes the status of the alert follows an edge of the diagram; the others change none.
abbrev status_of : Option Json → Option String
status_of (some (str s)) = some s
status_of _ = none

abbrev FollowsTo : String → Option String → Type 0
FollowsTo s none = Unit
FollowsTo s (some t) = s ⟶ t

abbrev pub Follows : (id status : String) → Call → Type 0
Follows id status (alerts (update_alert target (obj fs))) =
    (target ≡ id) × FollowsTo status (status_of (get "status" fs))
Follows id status _ = Unit

take_up_from : (s : String) → s ≡ "new" → s ⟶ "in_triage"
take_up_from s e = rw e take_up

triage_alert-Follows :
    (id : String) (a : AlertRow) → All (Follows id a.status) (calls (triage_alert id (some a)))
unfolding triage_alert
triage_alert-Follows id a = elim (Bool-cases (a.status == "new")) [
  | inl e ↦ rw e ((refl, take_up_from a.status (eq_of_== a.status "new" e)), tt)
  | inr e ↦ rw e tt
]

resolve_alert-Follows :
    (id : String) (a : AlertRow) → All (Follows id a.status) (calls (resolve_alert id (some a)))
unfolding resolve_alert
resolve_alert-Follows id a =
    elim (Bool-cases (not (a.status == "resolved") && not (a.status == "false_positive"))) [
      | inl e ↦ rw e (
        (
          refl,
          settle (ground (arith, e, eq_iff a.status "resolved"))
              (ground (arith, e, eq_iff a.status "false_positive")),
        ),
        tt,
      )
      | inr e ↦ rw e tt
    ]

link_to-Follows :
    (p : AlertDetail) (case_id status : String)
    → All (Follows p.id status) (calls (link_to p case_id))
unfolding link_to
link_to-Follows p case_id status =
    elim (Bool-cases (is_unlinked p.alert && p.linking && truthy case_id)) [
      | inl e ↦ rw e ((refl, tt), tt)
      | inr e ↦ rw e tt
    ]

open_linked-Follows :
    (id status : String) (a : Option AlertRow) → All (Follows id status) (calls (open_linked a))
unfolding open_linked
open_linked-Follows id status none = tt
open_linked-Follows id status (some a) = elim (Bool-cases (truthy a.case_id)) [
  | inl e ↦ rw e tt
  | inr e ↦ rw e tt
]

-- Whatever happens on the page of an alert that is loaded, an update of a status is for that alert, and it is
-- an edge of the diagram from the status that is shown.
pub act-Follows :
    (p : AlertDetail) (a : AlertRow) (e : Event)
    → p.alert ≡ some a
    → All (Follows p.id a.status) (calls (act p e).1)
unfolding act
act-Follows p a triage h = rw h (triage_alert-Follows p.id a)
act-Follows p a resolve h = rw h (resolve_alert-Follows p.id a)
act-Follows p a (pick_case case_id) h = link_to-Follows p case_id a.status
act-Follows p a open_case h = open_linked-Follows p.id a.status p.alert
act-Follows p a (alert_loaded b) h = tt
act-Follows p a back h = rw h tt
act-Follows p a attach h = ground (arith, h)
act-Follows p a cancel h = ground (arith, h)
act-Follows p a updated h = tt
act-Follows p a update_failed h = tt

-- The buttons in a row of the list and those on the page of the alert send the same calls for the same
-- alert.
pub row-page :
    (row : Table.Alert) (a : AlertRow)
    → row.status ≡ a.status
    → (Table.triage row ≡ triage_alert row.id (some a))
      × (Table.resolve row ≡ resolve_alert row.id (some a))
unfolding Table.triage Table.resolve triage_alert resolve_alert
row-page row a e = rw e (refl, refl)

-- A settled alert stays as it is along the diagram.
⟶-settled : {s t : String} → (s ≡ "resolved") ⊎ (s ≡ "false_positive") → s ⟶ t → ⊥
⟶-settled h take_up = ground (arith, h, eq_iff "new" "resolved", eq_iff "new" "false_positive")
⟶-settled h (settle a b) = ground (arith, h, a, b)

-- An alert that is resolved or a false positive never gets another status along the diagram.
pub ⟶*-stays : {s t : String} → (s ≡ "resolved") ⊎ (s ≡ "false_positive") → s ⟶* t → s ≡ t
⟶*-stays h here = refl
⟶*-stays h (after e r) = absurd (⟶-settled h e)
