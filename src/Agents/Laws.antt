-- ===== src/Agents/Laws.antt =====
-- Which agents the page shows, counts and removes.
use socblitz.Common.{
  ℕ, String, Bool, true, false, not, ◌&&◌, ◌==◌, ◌+◌, ◌≤◌, ◌≡◌, refl, Option, none, some, List, [],
  ◌∷◌, all, get_elem?, arith, eq_iff, eq_refl,
}
use socblitz.Api.{platform, delete_agent}
use socblitz.Ui.{Effect, send}
use socblitz.Agents.{Agent, Agents, Event, remove, counts, filtered, confirm_remove, act}

active_not_disconnected : (◌≡◌ {A = String} "active" "disconnected") → ⊥
active_not_disconnected e = cc e

-- The agents that are active and those that are disconnected are different ones: together they are no more
-- than all agents.
pub counts-total :
    (agents : List Agent)
    → (counts agents).active + (counts agents).disconnected ≤ (counts agents).total
unfolding counts
counts-total [] = omega arith
counts-total (a ∷ rest) = ground (
  arith,
  counts-total rest,
  eq_iff a.status "active",
  eq_iff a.status "disconnected",
  active_not_disconnected,
)

-- the ids of the agents that calls deregister
abbrev pub removals : List Effect → List String
removals [] = []
removals (send (platform (delete_agent id)) ∷ fs) = id ∷ removals fs
removals (_ ∷ fs) = removals fs

module _ (lower : String → String) where
  abbrev pub may_remove : Option Agent → Event → String → Bool
  may_remove none e id = false
  may_remove (some a) (remove row confirmed) id =
      confirmed && not (a.agent_id == "000") && a.id == id
  may_remove (some a) e id = false

  -- the row that an event is about
  abbrev pub row_of : Agents → Event → Option Agent
  row_of p (remove row confirmed) = get_elem? (filtered lower p) row
  row_of p _ = none

  confirm_remove-may_remove :
      (p : Agents) (o : Option Agent) (row : ℕ) (confirmed : Bool)
      → all (may_remove o (remove row confirmed)) (removals (confirm_remove lower p o confirmed).1)
        ≡ true
  unfolding confirm_remove
  confirm_remove-may_remove p none row confirmed = refl
  confirm_remove-may_remove p (some a) row confirmed = ground (arith, eq_refl a.id)

  -- A call that removes an agent is only sent when its removal was confirmed in its row, and never for the
  -- manager, whose number is 000.
  pub act-may_remove :
      (p : Agents) (e : Event) → all (may_remove (row_of p e) e) (removals (act lower p e).1) ≡ true
  unfolding act
  act-may_remove p (remove row confirmed) =
      confirm_remove-may_remove p (get_elem? (filtered lower p) row) row confirmed
  act-may_remove p e = ground arith
