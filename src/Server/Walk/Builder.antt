-- ===== src/Server/Walk/Builder.antt =====
-- The workflows that the builder saves, frontend/src/pages/WorkflowBuilder.tsx, as the server starts them. The
-- text of an id is a parameter.
use socblitz.Common.{
  ℕ, String, true, ◌≡◌, ◌≢◌, refl, Option, none, some, List, [], ◌∷◌, any, map, find?, arith,
}
use socblitz.Workflow as Canvas
use socblitz.Workflow.{kind_of, is_trigger, derive_trigger}
use socblitz.Server.Walk.{Node, find_start_node, trigger_node}

module _ (text : List ℕ → String) where
  -- a node of the canvas in the saved workflow
  abbrev pub saved : Canvas.Node → Node
  saved n = record { id = text n.id; type = n.type }

  abbrev pub saved_option : Option Canvas.Node → Option Node
  saved_option none = none
  saved_option (some n) = some (saved n)

  trigger_node-saved :
      (ns : List Canvas.Node) → trigger_node (map saved ns) ≡ saved_option (find? is_trigger ns)
  unfolding trigger_node
  trigger_node-saved [] = refl
  trigger_node-saved (n ∷ ns) = ground (arith, trigger_node-saved ns)

  found : (ns : List Canvas.Node) → any is_trigger ns ≡ true → find? is_trigger ns ≢ none
  found [] h e = cc h
  found (n ∷ ns) h e = ground (arith, h, e, found ns)

  abbrev pub kind_of_start : Option Node → List ℕ
  kind_of_start none = []
  kind_of_start (some n) = kind_of n.type

  -- Where the canvas has a trigger, the server starts the saved workflow at a node of the kind of trigger that the
  -- builder saved with it.
  pub find_start_node-derived :
      (ns : List Canvas.Node)
      → any is_trigger ns ≡ true
      → kind_of_start (find_start_node (map saved ns)) ≡ (derive_trigger ns).trigger_type
  unfolding find_start_node derive_trigger
  find_start_node-derived ns h = ground (arith, h, trigger_node-saved ns, found ns h)
