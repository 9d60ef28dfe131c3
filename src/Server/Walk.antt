-- ===== src/Server/Walk.antt =====
-- The walk through the graph of a workflow, `execute_workflow` of backend/app/services/workflow_engine.py. What
-- the executors of the nodes do is a parameter: each gives a result, and one that throws gives a result that
-- is not ok and names no branch. The context that they read does not change during the walk.
pub mod Bounds
pub mod Visits
pub mod Builder
use socblitz.Common.{
  ℕ, zero, suc, ◌+◌, String, Bool, true, false, not, ◌&&◌, ◌||◌, ◌==◌, Option, none, some, List, [],
  ◌∷◌, ◌++◌, any, length, starts_with, is_some, if◌then◌else◌,
}

pub record Node : Type 0 where
  pub id : String
  pub type : String

pub record Edge : Type 0 where
  pub source : String
  pub target : String
  -- `sourceHandle`
  pub source_handle : Option String

pub record Result : Type 0 where
  pub ok : Bool
  pub branch : Option String

-- an entry of the log
pub record Entry : Type 0 where
  pub node : Node
  pub result : Result

-- the log, or its one entry without a node
pub data Log : Type 0 where
  refused : (detail : String) → Log
  entries : List Entry → Log

unfoldable pub first_node : List Node → Option Node
first_node [] = none
first_node (n ∷ _) = some n

unfoldable pub trigger_node : List Node → Option Node
trigger_node [] = none
trigger_node (n ∷ ns) =
    let rest = trigger_node ns in if starts_with n.type "trigger." then some n else rest

-- `_find_start_node`
unfoldable pub find_start_node : List Node → Option Node
unfolding first_node trigger_node
find_start_node nodes = elim (trigger_node nodes) [ none ↦ first_node nodes | some n ↦ some n ]

-- `nodes_by_id.get(id)`: the last node with an id is the one that the dictionary keeps
unfoldable pub node_by_id : List Node → String → Option Node
node_by_id [] id = none
node_by_id (n ∷ ns) id = elim (node_by_id ns id) [
  | none ↦ if n.id == id then some n else none
  | some m ↦ some m
]

-- `branch is not None and handle is not None and handle != branch`
abbrev pub is_other_branch : (branch handle : Option String) → Bool
is_other_branch (some b) (some h) = not (h == b)
is_other_branch _ _ = false

-- `if target: out.append(target)`
abbrev pub put_node : Option Node → List Node → List Node
put_node none ns = ns
put_node (some n) ns = n ∷ ns

-- `_next_nodes`
unfoldable pub next_nodes : String → Option String → List Node → List Edge → List Node
next_nodes node_id branch nodes [] = []
next_nodes node_id branch nodes (e ∷ es) =
    let rest = next_nodes node_id branch nodes es in
    if not (e.source == node_id) || is_other_branch branch e.source_handle
    then rest
    else put_node (node_by_id nodes e.target) rest

-- `node_id in visited`
abbrev pub contains : String → List String → Bool
contains id visited = any (λ v. v == id) visited

-- what one round of the loop leaves, and the entries that it logs
pub record Round : Type 0 where
  pub visited : List String
  pub queue : List Node
  pub logged : List Entry

module _ (executors : String → Option (Node → Result)) (nodes : List Node) (edges : List Edge) where
  -- the result of a node
  unfoldable pub result_of : Node → Result
  result_of n = elim (executors n.type) [
    | none ↦ record { ok = false; branch = none }
    | some executor ↦ executor n
  ]

  -- the nodes that an executed node leads to: a hard failure stops the chain
  unfoldable pub followers : Node → List Node
  followers n =
      if not (result_of n).ok && not (n.type == "logic.condition")
      then []
      else next_nodes n.id (result_of n).branch nodes edges

  -- the body of the loop, for the node that is popped
  unfoldable pub round : List String → Node → List Node → Round
  round visited n queue =
      if contains n.id visited
      then record { visited = visited; queue = queue; logged = [] }
      else record {
        visited = n.id ∷ visited;
        queue = queue ++ followers n;
        logged = record { node = n; result = result_of n } ∷ [];
      }

  abbrev pub logged_before : List Entry → Option (List Entry) → Option (List Entry)
  logged_before es none = none
  logged_before es (some fs) = some (es ++ fs)

  -- `while queue`, with what is logged from here on; on fuel
  unfoldable pub walk : ℕ → List String → List Node → Option (List Entry)
  walk fuel visited [] = some []
  walk zero visited (n ∷ queue) = none
  walk (suc fuel) visited (n ∷ queue) =
      let r = round visited n queue in logged_before r.logged (walk fuel r.visited r.queue)

  abbrev pub as_log : Option (List Entry) → Option Log
  as_log none = none
  as_log (some es) = some (entries es)

  abbrev pub walk_from : Option Node → Option Log
  walk_from none = some (refused "workflow has no start node")
  walk_from (some start) = as_log (walk (suc (length edges)) [] (start ∷ []))

  abbrev pub walk_among : List Node → Option Log
  walk_among [] = some (refused "workflow has no nodes")
  walk_among (n ∷ ns) = walk_from (find_start_node (n ∷ ns))

  -- `execute_workflow`; the fuel is one more than the number of edges
  unfoldable pub execute_workflow : Option Log
  execute_workflow = walk_among nodes
