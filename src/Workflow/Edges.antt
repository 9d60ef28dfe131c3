-- ===== src/Workflow/Edges.antt =====
-- The canvas of the builder, frontend/src/pages/WorkflowBuilder.tsx: the handles of a node, the id of a new
-- edge, what is selected, and the fields of the configuration panel.
use socblitz.Common.{
  ℕ, String, Bool, false, ◌==◌, ◌≡◌, ◌≢◌, refl, ap, Option, none, some, List, [], ◌∷◌, ◌++◌, All,
  All-append, All-map, IsDigit, decimal, decimal-All_digits, find?, if◌then◌else◌, arith,
}
use socblitz.Common.Json.{Json, str, get}
use socblitz.Workflow.{Node, NodeType, Builder, same_id, node_id, update_selected_config}

-- a handle of a node: where an edge ends or begins
pub data FlowHandle : Type 0 where
  target : FlowHandle
  source : (id : Option String) → FlowHandle

-- the handles of `FlowNode`: a trigger has no target, a condition has two sources; `category` is the text
-- before the first full stop of the type
unfoldable pub handles : (category type : String) → List FlowHandle
handles category type =
    (if category == "trigger" then [] else target ∷ [])
    ++ (if type == "logic.condition"
        then source (some "true") ∷ source (some "false") ∷ []
        else source none ∷ [])

-- A connection as React Flow gives it; ids are code points, and a missing handle is empty.
pub record Connection : Type 0 where
  pub source : List ℕ
  pub target : List ℕ
  pub source_handle : List ℕ

-- `` `e${conn.source}-${conn.target}-${conn.sourceHandle || ''}` ``
unfoldable pub edge_id : Connection → List ℕ
edge_id c = b'e' ∷ (c.source ++ b'-' ∷ (c.target ++ b'-' ∷ c.source_handle))

-- `onNodeClick` and `onPaneClick`
unfoldable pub select_node : Option (List ℕ) → Builder → Builder
select_node id b = record b { selected_node_id = id }

is_selected_id : Option (List ℕ) → Node → Bool
is_selected_id none n = false
is_selected_id (some id) n = same_id n.id id

-- `selectedNode`
unfoldable pub selected_node : Builder → Option Node
unfolding is_selected_id
selected_node b = find? (λ n. is_selected_id b.selected_node_id n) b.nodes

-- `selectedCatalog`
unfoldable pub selected_catalog : List NodeType → Option Node → Option NodeType
selected_catalog catalog none = none
selected_catalog catalog (some n) = find? (λ t. t.type == n.type) catalog

-- the value that a field of the panel shows: `config?.[field.key] ?? field.default`
unfoldable pub shown_value : Node → (key : String) (default : Option Json) → Option Json
shown_value n key default = elim (get key n.config) [
  | none ↦ default
  | some Json.null ↦ default
  | some j ↦ some j
]

-- the change of a field: a number is read by `Number`, which is a parameter
unfoldable pub edit_field :
    (number : String → Json) (is_number : Bool) (key text : String) → Builder → Builder
edit_field number is_number key text b =
    update_selected_config key (if is_number then number text else str text) b

-- no dash in the id
abbrev pub IsDashless : List ℕ → Type 0
IsDashless cs = All (λ c. c ≢ b'-') cs

split_dash :
    (a a' b b' : List ℕ)
    → IsDashless a
    → IsDashless a'
    → a ++ b'-' ∷ b ≡ a' ++ b'-' ∷ b'
    → (a ≡ a') × (b ≡ b')
split_dash [] [] b b' k k' e = (refl, cc)
split_dash [] (y ∷ a') b b' k (n, k') e = ground (arith, n)
split_dash (x ∷ a) [] b b' (n, k) k' e = ground (arith, n)
split_dash (x ∷ a) (y ∷ a') b b' (n, k) (m, k') e = ground (arith, split_dash a a' b b' k k')

abbrev behind : List ℕ → List ℕ
behind [] = []
behind (x ∷ xs) = xs

-- Two connections between nodes whose ids have no dash get the same edge id only if they are the same
-- connection, from the same handle.
pub edge_id_injective :
    (c d : Connection)
    → IsDashless c.source
    → IsDashless c.target
    → IsDashless d.source
    → IsDashless d.target
    → edge_id c ≡ edge_id d
    → c ≡ d
unfolding edge_id
edge_id_injective c d cs ct ds dt e =
    let (p, q) =
      split_dash c.source d.source (c.target ++ b'-' ∷ c.source_handle)
        (d.target ++ b'-' ∷ d.source_handle) cs ds (ap behind e) in
    let (r, s) = split_dash c.target d.target c.source_handle d.source_handle ct dt q in
    λ i. record { source = p i; target = r i; source_handle = s i }

digit-dashless : (c : ℕ) → IsDigit c → c ≢ b'-'
digit-dashless c d e = ground arith

-- The ids of nodes that were dropped on the canvas have no dash.
pub node_id-IsDashless : (now k : ℕ) → IsDashless (node_id now k)
unfolding node_id
node_id-IsDashless now k = (
  λ e. absurd (omega (arith, e)),
  All-append (λ c. c ≢ b'-') (decimal now) (b'_' ∷ decimal k)
      (All-map digit-dashless (decimal now) (decimal-All_digits now))
      (λ e. absurd (omega (arith, e)), All-map digit-dashless (decimal k) (decimal-All_digits k)),
)
