-- ===== src/Examples/Workflows.antt =====
-- Examples for frontend/src/pages/WorkflowBuilder.tsx.
use socblitz.Common.{String, true, ◌≡◌, refl, ◌≢◌, Option, none, some, List, [], ◌∷◌, codes, arith}
use socblitz.Common.Json.{Json, str, num, end, field}
use socblitz.Workflow.{ConfigField, Node, NodeType, Builder, drop_node}
use socblitz.Api.{platform, get_workflow}
use socblitz.Ui.{Query}
use socblitz.Workflow.{payload}
use socblitz.Workflow.Loading.{Loaded, Canvas, IsKept, load, load-payload, workflow_query}
use socblitz.Workflow.Edges.{Connection, edge_id, node_id-IsDashless, IsDashless}
use socblitz.Common.{decimal}
use socblitz.Workflow.{node_id}
use socblitz.Workflow.Ids.{HasFreshIds, drop_node-HasFreshIds}

abbrev setting : String → Option Json → ConfigField
setting key default = record { key = key; default = default }

abbrev node_type : String → String → List ConfigField → NodeType
node_type type category schema = record { type = type; category = category; config_schema = schema }

abbrev catalog : List NodeType
catalog =
    node_type "trigger.alert" "trigger" (setting "severity" (some (str "high")) ∷ [])
    ∷ node_type "action.notify" "action" (setting "to" none ∷ setting "retries" (some (num 3)) ∷ [])
    ∷ node_type "trigger.webhook" "trigger" []
    ∷ []

abbrev empty_canvas : Builder
empty_canvas = record {
  name = "New workflow";
  description = "";
  nodes = [];
  selected_node_id = none;
  id_counter = 0;
}

drop_node-HasFreshIds_example : HasFreshIds 1700000000000 (
    drop_node catalog 1700000000500 "action.notify" "Notify"
      (drop_node catalog 1700000000500 "trigger.alert" "" empty_canvas))
drop_node-HasFreshIds_example =
    drop_node-HasFreshIds 1700000000000 1700000000500 catalog "action.notify" "Notify"
      (drop_node catalog 1700000000500 "trigger.alert" "" empty_canvas) (omega arith)
      (drop_node-HasFreshIds 1700000000000 1700000000500 catalog "trigger.alert" "" empty_canvas
        (omega arith) (tt, tt))

abbrev node : String → String → Node
node id type = record {
  id = codes id;
  type = type;
  label = type;
  config = field "to" (str "soc") end;
}

abbrev nodes_in_order : List Node
nodes_in_order =
    node "n1_1" "action.notify" ∷ node "n1_2" "trigger.alert" ∷ node "n1_3" "trigger.webhook" ∷ []

has_kind : codes "alert" ≢ []
has_kind e = ground arith

abbrev with_selection : Builder
with_selection = record {
  name = "Notify";
  description = "";
  nodes = nodes_in_order;
  selected_node_id = some (codes "n1_1");
  id_counter = 3;
}

abbrev edges : Json
edges = str "n1_2-n1_1"

abbrev answer : Loaded
answer = record {
  name = "Notify";
  description = some "";
  nodes = some nodes_in_order;
  edges = some edges;
}

abbrev blank : Canvas
blank = record {
  builder = record {
    name = "New workflow";
    description = "";
    nodes = [];
    selected_node_id = none;
    id_counter = 0;
  };
  edges = str "";
}

kept : IsKept (payload with_selection edges) answer
unfolding payload
kept = (refl, refl, refl, refl)

load-payload_example :
    payload (load answer blank).builder (load answer blank).edges ≡ payload with_selection edges
load-payload_example = load-payload with_selection edges answer blank kept

abbrev page_query : Query
page_query = record {
  key = str "workflow" ∷ str "w1" ∷ [];
  call = platform (get_workflow "w1");
  enabled = true;
}

asked : workflow_query (some "w1") ≡ some page_query
unfolding workflow_query
asked = refl

-- two nodes that were dropped one after the other, and a connection between them
abbrev connection : Connection
connection = record {
  source = node_id 1700000000000 1;
  target = node_id 1700000000500 2;
  source_handle = codes "true";
}

-- the same connection in an answer of the server
abbrev read_back : Connection
read_back = record {
  source = codes "n1700000000000_1";
  target = codes "n1700000000500_2";
  source_handle = codes "true";
}

dashless : IsDashless read_back.source × IsDashless read_back.target
unfolding node_id decimal
dashless = (node_id-IsDashless 1700000000000 1, node_id-IsDashless 1700000000500 2)

same_edge : edge_id read_back ≡ edge_id connection
unfolding edge_id node_id decimal
same_edge = refl
