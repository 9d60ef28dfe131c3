-- ===== src/Workflow/Loading.antt =====
-- Loading a saved workflow into the builder: the query and the effect of
-- frontend/src/pages/WorkflowBuilder.tsx that fills the canvas with its answer.
use socblitz.Common.{
  String, true, ◌≡◌, refl, sym, ap, ◌∙◌, ◌≢◌, Option, none, some, List, [], ◌∷◌, ◌++◌, All, or_else,
}
use socblitz.Common.Json.{Json, str, arr, nil}
use socblitz.Api.{platform, get_workflow, list_node_types}
use socblitz.Ui.{Query}
use socblitz.CaseDetail.Queries.{invalidated}
use socblitz.Workflow.{Node, Builder, Payload, payload, saved}

-- what the effect reads of the answer
pub record Loaded : Type 0 where
  pub name : String
  pub description : Option String
  pub nodes : Option (List Node)
  pub edges : Option Json

-- the query of the workflow, where the address has an id
unfoldable pub workflow_query : Option String → Option Query
workflow_query none = none
workflow_query (some id) = some (record {
  key = str "workflow" ∷ str id ∷ [];
  call = platform (get_workflow id);
  enabled = true;
})

unfoldable pub node_types_query : Query
node_types_query = record {
  key = str "node-types" ∷ [];
  call = platform list_node_types;
  enabled = true;
}

-- the builder and the edges of the canvas
pub record Canvas : Type 0 where
  pub builder : Builder
  pub edges : Json

-- the effect on `[workflow]`
unfoldable pub load : Loaded → Canvas → Canvas
load w c = record {
  builder = record c.builder {
    name = w.name;
    description = or_else w.description "";
    nodes = or_else w.nodes [];
  };
  edges = or_else w.edges (arr nil);
}

-- The answer holds a workflow as it was sent.
abbrev pub IsKept : Payload → Loaded → Type 0
IsKept p w =
    (w.name ≡ p.name)
    × (w.description ≡ some p.description)
    × (w.nodes ≡ some p.nodes)
    × (w.edges ≡ some p.edges)

-- If the server keeps a workflow as it was sent, loading it into any builder restores what was saved: the
-- name, the description, the nodes and the edges, and saving again sends the same payload, with the trigger.
pub load-payload :
    (b : Builder) (edges : Json) (w : Loaded) (c : Canvas)
    → IsKept (payload b edges) w
    → payload (load w c).builder (load w c).edges ≡ payload b edges
unfolding load payload
load-payload b edges w c (n, d, m, e) = rw (n, d, m, e) refl

abbrev key_of : Query → List Json
key_of q = q.key

some_injective : {a b : Query} → some a ≡ some b → a ≡ b
some_injective h = cc

workflow_ne : (◌≡◌ {A = String} "workflows" "workflow") → ⊥
workflow_ne e = cc e

query_key :
    (id : String) (q : Query)
    → workflow_query (some id) ≡ some q
    → q.key ≡ str "workflow" ∷ str id ∷ []
unfolding workflow_query
query_key id q h = ap key_of (sym (some_injective h))

-- Saving a workflow invalidates no key that the query of its page begins with, so the answer that is cached
-- for the page stays the one from before the save.
pub saved-workflow_query :
    (id res_id : String) (q : Query) (rest : List Json)
    → workflow_query (some id) ≡ some q
    → All (λ ks. ks ++ rest ≢ q.key) (invalidated (saved (some id) res_id))
unfolding saved workflow_query
saved-workflow_query id res_id q rest h = (
  λ e.
      let t : (str "workflows" ∷ []) ++ rest ≡ str "workflow" ∷ str id ∷ [] =
        e ∙ query_key id q h in
      workflow_ne cc,
  tt,
)
