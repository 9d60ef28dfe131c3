-- ===== src/Examples/Walks.antt =====
-- Examples for the walk through a workflow.
use socblitz.Common.{
  ℕ, String, Bool, true, not, ◌==◌, ◌≡◌, ◌≢◌, refl, Option, none, some, List, [], ◌∷◌, all, map,
  arith,
}
use socblitz.Common.Json.{end}
use socblitz.Workflow as Canvas
use socblitz.Workflow.{is_trigger, derive_trigger}
use socblitz.Server.Walk.{
  Node, Edge, Result, Entry, Log, entries, followers, execute_workflow, find_start_node, next_nodes,
  node_by_id, result_of,
}
use socblitz.Server.Walk.Visits.{
  all_new, is_covered, is_complete, execute_workflow-visits, execute_workflow-closed,
}
use socblitz.Server.Walk.Bounds.{execute_workflow-returns}
use socblitz.Server.Walk.Builder.{saved, kind_of_start, find_start_node-derived}

abbrev trigger : Node
trigger = record { id = "n1"; type = "trigger.alert" }

abbrev check : Node
check = record { id = "n2"; type = "logic.condition" }

abbrev notify : Node
notify = record { id = "n3"; type = "action.slack_notify" }

abbrev close : Node
close = record { id = "n4"; type = "action.create_case" }

abbrev graph : List Node
graph = notify ∷ trigger ∷ check ∷ close ∷ []

abbrev edge : String → String → Option String → Edge
edge source target handle = record { source = source; target = target; source_handle = handle }

-- the last edge leads back
abbrev wires : List Edge
wires =
    edge "n1" "n2" none
    ∷ edge "n2" "n3" (some "true")
    ∷ edge "n2" "n4" (some "false")
    ∷ edge "n3" "n1" none
    ∷ []

-- whatever is executed succeeds and takes the branch "true"
abbrev holding : Node → Result
holding n = record { ok = true; branch = some "true" }

abbrev all_known : String → Option (Node → Result)
all_known type = some holding

abbrev entry : Node → Result → Entry
entry n r = record { node = n; result = r }

abbrev expected : List Entry
expected =
    entry trigger (holding trigger)
    ∷ entry check (holding check)
    ∷ entry notify (holding notify)
    ∷ []

executed : execute_workflow all_known graph wires ≡ some (entries expected)
unfolding execute_workflow socblitz.Server.Walk.walk socblitz.Server.Walk.round followers next_nodes
    node_by_id find_start_node socblitz.Server.Walk.trigger_node socblitz.Server.Walk.first_node
    result_of
executed = refl

execute_workflow-returns_example : execute_workflow all_known graph wires ≢ none
execute_workflow-returns_example = execute_workflow-returns all_known graph wires

starts : find_start_node graph ≡ some trigger
unfolding find_start_node socblitz.Server.Walk.trigger_node
starts = refl

execute_workflow-visits_example :
    (es : List Entry) × (execute_workflow all_known graph wires ≡ some (entries es))
    × (all_new [] es ≡ true)
    × (is_covered [] es trigger ≡ true)
    × (is_complete all_known graph wires [] es es ≡ true)
execute_workflow-visits_example = execute_workflow-visits all_known graph wires trigger starts

-- not the node behind the branch that is not taken
abbrev is_taken : Node → Bool
is_taken n = not (n.id == "n4")

taken_on : (m : Node) → is_taken m ≡ true → all is_taken (followers all_known graph wires m) ≡ true
unfolding followers next_nodes node_by_id result_of
taken_on m h = ground arith

execute_workflow-closed_example : all (λ e. is_taken e.node) expected ≡ true
execute_workflow-closed_example =
    execute_workflow-closed all_known graph wires is_taken trigger expected starts refl taken_on
      executed

abbrev canvas : List Canvas.Node
canvas =
    record { id = b'3' ∷ []; type = "action.slack_notify"; label = "Notify"; config = end }
    ∷ record { id = b'1' ∷ []; type = "trigger.alert"; label = "Alert"; config = end }
    ∷ []

abbrev as_text : List ℕ → String
as_text id = "n"

find_start_node-derived_example :
    kind_of_start as_text (find_start_node (map (saved as_text) canvas))
    ≡ (derive_trigger canvas).trigger_type
find_start_node-derived_example = find_start_node-derived as_text canvas refl
