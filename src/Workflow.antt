-- ===== src/Workflow.antt =====
-- The workflow builder, frontend/src/pages/WorkflowBuilder.tsx: the nodes on the canvas, their
-- configuration, the trigger that is derived from them, and saving.
pub mod Trigger
pub mod Nodes
pub mod Palette
pub mod Ids
pub mod Loading
pub mod Edges
use socblitz.Common.{
  ℕ, suc, ◌+◌, String, Bool, true, false, not, ◌&&◌, ◌||◌, Option, none, some, List, [], ◌∷◌, ◌++◌,
  map, ◌==◌, eqb, truthy, or_else, or_text, codes, decimal, has_prefix, starts_with, find?,
  if◌then◌else◌,
}
use socblitz.Common.Json.{Json, Fields, str, obj, end, field, get}
use socblitz.Api.{platform, create_workflow, update_workflow, run_workflow}
use socblitz.Ui.{Effect, send, invalidate, replace_by_editor, success, failure}

-- `{ ...config, [key]: value }`: the value of a key that is there is replaced in its place.
unfoldable pub put : String → Json → Fields → Fields
put key v end = field key v end
put key v (field k w rest) = if k == key then field k v rest else field k w (put key v rest)

-- an entry of a node type's `config_schema`
pub record ConfigField : Type 0 where
  pub key : String
  pub default : Option Json

-- an entry of the catalogue of node types
pub record NodeType : Type 0 where
  pub type : String
  pub category : String
  pub config_schema : List ConfigField

-- A node; its place on the canvas is left out. Ids are code points.
pub record Node : Type 0 where
  pub id : List ℕ
  pub type : String
  pub label : String
  pub config : Fields

-- equality of ids
abbrev pub same_id : List ℕ → List ℕ → Bool
same_id [] [] = true
same_id (a ∷ xs) (b ∷ ys) = eqb a b && same_id xs ys
same_id _ _ = false

pub record Builder : Type 0 where
  pub name : String
  pub description : String
  pub nodes : List Node
  pub selected_node_id : Option (List ℕ)
  -- the counter of the module, `idCounter`
  pub id_counter : ℕ

-- `` `n${Date.now()}_${idCounter}` ``, after the counter has gone up
unfoldable pub node_id : ℕ → ℕ → List ℕ
node_id now counter = b'n' ∷ decimal now ++ b'_' ∷ decimal counter

-- `f.default ?? ''`, where null counts as no default
abbrev default_of : Option Json → Json
default_of none = str ""
default_of (some Json.null) = str ""
default_of (some j) = j

fill : List ConfigField → Fields → Fields
unfolding put
fill [] config = config
fill (f ∷ fs) config = fill fs (put f.key (default_of f.default) config)

abbrev schema_of : Option NodeType → List ConfigField
schema_of none = []
schema_of (some t) = t.config_schema

-- the loop over the schema of the catalogue's entry
unfoldable pub default_config : List NodeType → String → Fields
unfolding fill
default_config catalog type = fill (schema_of (find? (λ t. t.type == type) catalog)) end

-- `onDrop`, where the canvas is there: `now` is `Date.now()`
unfoldable pub drop_node : List NodeType → ℕ → (type label : String) → Builder → Builder
unfolding default_config node_id
drop_node catalog now type label b =
    if truthy type
    then record b {
      id_counter = b.id_counter + 1;
      nodes =
          b.nodes
          ++ record {
            id = node_id now (b.id_counter + 1);
            type = type;
            label = or_text label type;
            config = default_config catalog type;
          }
            ∷ [];
    }
    else b

abbrev is_selected : Option (List ℕ) → List ℕ → Bool
is_selected none id = false
is_selected (some s) id = same_id id s

-- `updateSelectedConfig`
unfoldable pub update_selected_config : String → Json → Builder → Builder
unfolding put
update_selected_config key v b = record b {
  nodes =
      map
        (λ n.
          if is_selected b.selected_node_id n.id
          then record n { config = put key v n.config }
          else n)
        b.nodes;
}

-- what stands behind the first full stop, up to the next one; "" where there is none
to_next_dot : List ℕ → List ℕ
to_next_dot [] = []
to_next_dot (c ∷ cs) = if eqb c b'.' then [] else c ∷ to_next_dot cs

-- `s.split('.')[1] || 'manual'`
second_part : List ℕ → List ℕ
unfolding to_next_dot
second_part [] = []
second_part (c ∷ cs) = if eqb c b'.' then to_next_dot cs else second_part cs

abbrev nonempty_or : List ℕ → List ℕ → List ℕ
nonempty_or [] d = d
nonempty_or (c ∷ cs) d = c ∷ cs

unfoldable pub kind_of : String → List ℕ
unfolding second_part
kind_of type = nonempty_or (second_part (codes type)) (codes "manual")

-- the type of the trigger, as code points, and its configuration
pub record TriggerOf : Type 0 where
  pub trigger_type : List ℕ
  pub trigger_config : Fields

abbrev trigger_of : Option Node → TriggerOf
trigger_of none = record { trigger_type = codes "manual"; trigger_config = end }
trigger_of (some n) = record { trigger_type = kind_of n.type; trigger_config = n.config }

abbrev pub is_trigger : Node → Bool
is_trigger n = starts_with n.type "trigger."

-- `deriveTrigger`
unfoldable pub derive_trigger : List Node → TriggerOf
unfolding kind_of
derive_trigger nodes = trigger_of (find? is_trigger nodes)

-- The palette's groups: `g[n.category] || (g[n.category] = [])`, then a push.
abbrev pub Groups : Type 0
Groups = List (String × List NodeType)

unfoldable pub push_group : NodeType → Groups → Groups
push_group n [] = (n.category, n ∷ []) ∷ []
push_group n ((c, ns) ∷ gs) =
    if c == n.category then (c, ns ++ n ∷ []) ∷ gs else (c, ns) ∷ push_group n gs

push_all : List NodeType → Groups → Groups
unfolding push_group
push_all [] g = g
push_all (n ∷ ns) g = push_all ns (push_group n g)

unfoldable pub grouped : List NodeType → Groups
unfolding push_all
grouped catalog = push_all catalog (("trigger", []) ∷ ("logic", []) ∷ ("action", []) ∷ [])

-- What is saved, with the edges as the canvas keeps them.
pub record Payload : Type 0 where
  pub name : String
  pub description : String
  pub trigger : TriggerOf
  pub nodes : List Node
  pub edges : Json

unfoldable pub payload : Builder → Json → Payload
unfolding derive_trigger
payload b edges = record {
  name = b.name;
  description = b.description;
  trigger = derive_trigger b.nodes;
  nodes = b.nodes;
  edges = edges;
}

-- The id of the address, if the workflow is not new; the JSON text of the payload is a parameter.
module _ (to_json : Payload → Json) where
  unfoldable pub save : Option String → Builder → Json → (is_pending : Bool) → List Effect
  unfolding payload
  save none b edges is_pending =
      if is_pending then [] else send (platform (create_workflow (to_json (payload b edges)))) ∷ []
  save (some id) b edges is_pending =
      if is_pending
      then []
      else send (platform (update_workflow id (to_json (payload b edges)))) ∷ []

-- `res` holds the id that the server has given to a new workflow.
unfoldable pub saved : Option String → (res_id : String) → List Effect
saved none res_id =
    success "Workflow saved" ∷ invalidate (str "workflows" ∷ []) ∷ replace_by_editor res_id ∷ []
saved (some id) res_id = success "Workflow saved" ∷ invalidate (str "workflows" ∷ []) ∷ []

-- "Run now" is shown for a workflow that is not new.
unfoldable pub run_now : Option String → (is_pending : Bool) → List Effect
run_now none is_pending = []
run_now (some id) is_pending =
    if is_pending then [] else send (platform (run_workflow id none)) ∷ []
