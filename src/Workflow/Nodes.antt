-- ===== src/Workflow/Nodes.antt =====
-- The initial configuration of a node, and the editing of the selected node.
use socblitz.Common.{
  ℕ, String, ◌≡◌, refl, ap, ◌∙◌, ◌↔◌, Bool, true, ◌&&◌, Option, none, some, List, [], ◌∷◌, ◌==◌,
  eq_iff, map, is_some, find?, if◌then◌else◌, arith,
}
use socblitz.Common.Json.{Json, Fields, end, field, get}
use socblitz.Workflow.{
  ConfigField, Node, NodeType, Builder, put, default_of, fill, same_id, is_selected,
  update_selected_config, default_config, schema_of,
}

-- Reading a key after a key is put.
pub get-put :
    (k key : String) (v : Json) (fs : Fields)
    → get k (put key v fs) ≡ (if key == k then some v else get k fs)
unfolding put
get-put k key v end = refl
get-put k key v (field j w rest) =
    ground (arith, eq_iff j key, eq_iff j k, eq_iff key k, get-put k key v rest)

same_id_iff : (a b : List ℕ) → (same_id a b ≡ true) ↔ (a ≡ b)
same_id_iff [] [] = (λ _. refl, λ _. refl)
same_id_iff [] (y ∷ b) = ground arith
same_id_iff (x ∷ a) [] = ground arith
same_id_iff (x ∷ a) (y ∷ b) = ground (arith, same_id_iff a b)

-- the value of a key in the configuration of the node with the id
abbrev config_at : Option Node → String → Option Json
config_at none k = none
config_at (some n) k = get k n.config

abbrev pub value_at : List ℕ → String → List Node → Option Json
value_at id k nodes = config_at (find? (λ n. same_id n.id id) nodes) k

abbrev pub has_node : List ℕ → List Node → Bool
has_node id nodes = is_some (find? (λ n. same_id n.id id) nodes)

value_at-map :
    (sel : Option (List ℕ)) (id : List ℕ) (k key : String) (v : Json) (ns : List Node)
    → value_at id k (
        map
          (λ (n : Node).
            if is_selected sel n.id then record n { config = put key v n.config } else n)
          ns)
      ≡ (if is_selected sel id && has_node id ns && key == k then some v else value_at id k ns)
value_at-map none id k key v [] = refl
value_at-map (some s) id k key v [] = ground arith
value_at-map none id k key v (n ∷ ns) = ground (arith, value_at-map none id k key v ns)
value_at-map (some s) id k key v (n ∷ ns) = ground (
  arith,
  value_at-map (some s) id k key v ns,
  same_id_iff n.id id,
  same_id_iff n.id s,
  same_id_iff id s,
  get-put k key v n.config,
)

-- Editing a key of the selected node: every key of every node reads afterwards as it did before, but
-- that key of that node, which reads the new value.
pub value_at-update_selected_config :
    (id : List ℕ) (k key : String) (v : Json) (b : Builder)
    → value_at id k (update_selected_config key v b).nodes ≡ (
        if is_selected b.selected_node_id id && has_node id b.nodes && key == k
        then some v
        else value_at id k b.nodes)
unfolding update_selected_config
value_at-update_selected_config id k key v b = value_at-map b.selected_node_id id k key v b.nodes

-- the last default that a schema gives for a key
abbrev pub last_default : List ConfigField → String → Option Json → Option Json
last_default [] k before = before
last_default (f ∷ fs) k before =
    last_default fs k (if f.key == k then some (default_of f.default) else before)

get-fill :
    (fs : List ConfigField) (k : String) (config : Fields)
    → get k (fill fs config) ≡ last_default fs k (get k config)
unfolding fill
get-fill [] k config = refl
get-fill (f ∷ fs) k config =
    get-fill fs k (put f.key (default_of f.default) config)
    ∙ ap (last_default fs k) (get-put k f.key (default_of f.default) config)

-- A dropped node starts with the default of each key of its type's schema, the empty text where the
-- schema gives none or null, the last one where a key stands twice, and with no other key.
pub get-default_config :
    (catalog : List NodeType) (type k : String)
    → get k (default_config catalog type)
      ≡ last_default (schema_of (find? (λ t. t.type == type) catalog)) k none
unfolding default_config
get-default_config catalog type k = get-fill (schema_of (find? (λ t. t.type == type) catalog)) k end
