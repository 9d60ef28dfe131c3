-- ===== src/Soar/Laws.antt =====
-- What the buttons of a workflow's row do.
use socblitz.Common.{
  get_elem?, String, Bool, true, ◌≡◌, refl, Option, none, some, List, [], ◌∷◌, all, found_is, arith,
}
use socblitz.Api.{platform, run_workflow, update_workflow, delete_workflow}
use socblitz.Ui.{Effect, send}
use socblitz.Soar.{
  WorkflowRow, Soar, Event, toggle, run_now, delete, target, open_row, delete_row, act, run_row,
  toggle_row,
}

-- the workflows that calls run, change or delete
abbrev pub touched : List Effect → List String
touched [] = []
touched (send (platform (run_workflow id j)) ∷ fs) = id ∷ touched fs
touched (send (platform (update_workflow id j)) ∷ fs) = id ∷ touched fs
touched (send (platform (delete_workflow id)) ∷ fs) = id ∷ touched fs
touched (_ ∷ fs) = touched fs

module _ (p : Soar) where
  -- only the workflow whose row is open
  abbrev pub only_open : List Effect → Bool
  only_open fs = all (λ id. found_is p.expanded id) (touched fs)

  run_row-only_open :
      (o : Option WorkflowRow) → only_open (run_row p (open_row p.expanded o)).1 ≡ true
  unfolding run_row open_row
  run_row-only_open none = refl
  run_row-only_open (some wf) = ground arith

  toggle_row-only_open :
      (o : Option WorkflowRow) → only_open (toggle_row p (open_row p.expanded o)).1 ≡ true
  unfolding toggle_row open_row
  toggle_row-only_open none = refl
  toggle_row-only_open (some wf) = ground arith

  delete_row-only_open :
      (o : Option WorkflowRow) (c : Bool) → only_open (delete_row (open_row p.expanded o) c) ≡ true
  unfolding delete_row open_row
  delete_row-only_open none c = refl
  delete_row-only_open (some wf) c = ground arith

-- Every call that runs, changes or deletes a workflow is for the one whose row is open.
pub act-only_open : (p : Soar) (e : Event) → only_open p (act p e).1 ≡ true
unfolding act target
act-only_open p (run_now i) = run_row-only_open p (get_elem? p.workflows i)
act-only_open p (toggle i) = toggle_row-only_open p (get_elem? p.workflows i)
act-only_open p (delete i c) = delete_row-only_open p (get_elem? p.workflows i) c
act-only_open p e = ground arith
