-- ===== src/CaseDetail/Laws.antt =====
-- The handlers of the timeline, the tasks and the observables over several steps.
use socblitz.Common.{
  ℕ, zero, suc, ◌≤◌, String, ◌≡◌, refl, ◌≢◌, ◌⊎◌, includes, true, false, not, ◌&&◌, ◌||◌, Option,
  none, some, List, [], ◌∷◌, ◌++◌, eq_iff, eq_refl, truthy, trim, length, take, filter-All, All,
  All-map, is_some, arith, Bool-cases, inl, inr,
}
use socblitz.Common.Json.{Json}
use socblitz.Ui.{calls}
use socblitz.CaseDetail.Header.{listed}
use socblitz.CaseDetail.Timeline
use socblitz.CaseDetail.Timeline.{Timeline, Technique, selected, matches, pick}
use socblitz.CaseDetail.Tasks.{task_status_order, next_status}
use socblitz.CaseDetail.Observables.{
  Observables, Observable, Event, expand, correlated, edited, edit, save_edit, result_of, act, run,
}

abbrev pub and_then : Option String → Option String
and_then none = none
and_then (some s) = next_status s

listed-cases :
    (s : String)
    → listed s task_status_order ≡ true
    → (s ≡ "to_do") ⊎ ((s ≡ "in_progress") ⊎ (s ≡ "done"))
unfolding listed
listed-cases s h = ground (arith, eq_iff "to_do" s, eq_iff "in_progress" s, eq_iff "done" s)

-- The button before a task goes through the three statuses in turn: from each of them three presses
-- lead back to it, and one press leads to another one.
pub next_status-cycle :
    (s : String)
    → listed s task_status_order ≡ true
    → (and_then (and_then (next_status s)) ≡ some s) × (next_status s ≢ some s)
unfolding next_status
next_status-cycle s h = elim (listed-cases s h) [
  | inl e ↦ rw e (refl, λ q. ground (arith, eq_iff "in_progress" "to_do"))
  | inr (inl e) ↦ rw e (refl, λ q. ground (arith, eq_iff "done" "in_progress"))
  | inr (inr e) ↦ rw e (refl, λ q. ground (arith, eq_iff "to_do" "done"))
]

-- The ids are different from one another.
abbrev pub IsDistinct : List String → Type 0
IsDistinct [] = Unit
IsDistinct (s ∷ ss) = (selected ss s ≡ false) × IsDistinct ss

selected-concat :
    (ss : List String) (id s : String)
    → selected ss s ≡ false
    → s ≢ id
    → selected (ss ++ id ∷ []) s ≡ false
unfolding selected
selected-concat [] id s h n = ground (arith, eq_iff id s)
selected-concat (t ∷ ss) id s h n = ground (arith, selected-concat ss id s)

IsDistinct-concat :
    (ss : List String) (id : String)
    → IsDistinct ss
    → selected ss id ≡ false
    → IsDistinct (ss ++ id ∷ [])
unfolding selected
IsDistinct-concat [] id d h = (refl, tt)
IsDistinct-concat (s ∷ ss) id (d, ds) h = (
  selected-concat ss id s d (ground (arith, eq_iff s id)),
  IsDistinct-concat ss id ds (ground arith),
)

length-take-le : (n : ℕ) (os : List Technique) → length (take n os) ≤ n
length-take-le zero os = omega arith
length-take-le (suc n) [] = omega arith
length-take-le (suc n) (o ∷ os) = omega (arith, length-take-le n os)

All-take : (P : Technique → Type 0) (n : ℕ) (os : List Technique) → All P os → All P (take n os)
All-take P zero os h = tt
All-take P (suc n) [] h = tt
All-take P (suc n) (o ∷ os) (h, k) = (h, All-take P n os k)

module _ (lower : String → String) where
  unselected :
      (options : List Technique) (t : Timeline)
      → All (λ o. selected t.timeline_mitre o.id ≡ false) (matches lower options t)
  unfolding matches
  unselected options t = elim (Bool-cases (truthy (trim t.query))) [
    | inl e ↦ rw e (
        All-take _ 6 _ (
          All-map (λ o h. ground arith) _
            (filter-All
              (λ o.
                not (selected t.timeline_mitre o.id)
                && (includes (lower o.id) (lower t.query)
                    || includes (lower o.name) (lower t.query)))
              options)))
    | inr e ↦ rw e tt
  ]

  length-matches : (options : List Technique) (t : Timeline) → length (matches lower options t) ≤ 6
  unfolding matches
  length-matches options t = elim (Bool-cases (truthy (trim t.query))) [
    | inl e ↦ rw e (length-take-le 6 _)
    | inr e ↦ rw e (omega arith)
  ]

  -- The picker offers at most six techniques, and whichever of them is picked, the techniques that
  -- are selected stay different from one another.
  pub matches-pick :
      (options : List Technique) (t : Timeline)
      → IsDistinct t.timeline_mitre
      → (length (matches lower options t) ≤ 6)
        × All (λ o. IsDistinct (pick t o.id).timeline_mitre) (matches lower options t)
  unfolding pick
  matches-pick options t d = (
    length-matches options t,
    All-map (λ o h. IsDistinct-concat t.timeline_mitre o.id d h) _ (unselected options t),
  )

-- What the row's lookup has found stays, whatever follows.
result_of-act :
    (case_id id : String) (o : Observables) (e : Event)
    → is_some (result_of id o.correlate_results) ≡ true
    → is_some (result_of id (act case_id o e).0.correlate_results) ≡ true
unfolding act result_of
result_of-act case_id id o (correlated k j) h = ground arith
result_of-act case_id id o _ h = ground arith

result_of-run :
    (case_id id : String) (o : Observables) (es : List Event)
    → is_some (result_of id o.correlate_results) ≡ true
    → is_some (result_of id (run case_id o es).correlate_results) ≡ true
unfolding run
result_of-run case_id id o [] h = h
result_of-run case_id id o (e ∷ es) h =
    result_of-run case_id id (act case_id o e).0 es (result_of-act case_id id o e h)

expand-known :
    (case_id : String) (o : Observables) (r : Observable)
    → is_some (result_of r.id o.correlate_results) ≡ true
    → calls (act case_id o (expand r)).1 ≡ []
unfolding act
expand-known case_id o r h = ground arith

correlated-known :
    (case_id : String) (o : Observables) (id : String) (j : Json)
    → is_some (result_of id (act case_id o (correlated id j)).0.correlate_results) ≡ true
unfolding act result_of
correlated-known case_id o id j = rw (eq_refl id) refl

-- The other cases of an observable are looked up once: after an answer for it, and whatever events
-- follow, expanding its row sends no call.
pub expand-correlated :
    (case_id : String) (o : Observables) (j : Json) (es : List Event) (r : Observable)
    → calls (act case_id (run case_id (act case_id o (correlated r.id j)).0 es) (expand r)).1 ≡ []
expand-correlated case_id o j es r = expand-known case_id _ r (
    result_of-run case_id r.id (act case_id o (correlated r.id j)).0 es
      (correlated-known case_id o r.id j))

-- The answer to an update closes whichever row is being edited, also one whose editing began after
-- the update was sent: its draft can no longer be saved.
pub edited-closes :
    (case_id : String) (o : Observables) (r : Observable)
    → (calls (act case_id (act case_id o (edit r)).0 (save_edit r)).1 ≢ [])
      × (calls (act case_id (act case_id (act case_id o (edit r)).0 edited).0 (save_edit r)).1 ≡ [])
unfolding act
edited-closes case_id o r = (ground (arith, eq_refl r.id), refl)

-- While a note is being sent the button does nothing, and the key Enter sends the note once more.
pub log-twice :
    (case_id : String) (t : Timeline)
    → trim t.note_draft ≢ ""
    → (Timeline.click_log case_id t true ≡ [])
      × (Timeline.press_enter case_id t true ≡ Timeline.click_log case_id t false)
      × (Timeline.click_log case_id t false ≢ [])
unfolding Timeline.click_log Timeline.press_enter Timeline.log
log-twice case_id t h = ground (arith, eq_iff (trim t.note_draft) "")
