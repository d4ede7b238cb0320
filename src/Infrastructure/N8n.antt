-- ===== src/Infrastructure/N8n.antt =====
-- infrastructure/parser/n8n.go: the workflow graph of an n8n document.
pub mod Schema
pub mod Kind
pub mod NodeTable
pub mod Edges
pub mod Entry
mod Closed
mod Joined
mod Degrees
mod Names
pub mod Whole
mod Tests
mod Reached
use shingan.Prelude.{ℕ, String, false, true, Option, none, some, List, [], ◌∷◌, ◌++◌, map, insert}
use shingan.Domain.NodeType.{tool}
use shingan.Domain.Value.{text, boolean}
use shingan.Domain.Graph.{Node, Edge, WorkflowGraph}
use shingan.Infrastructure.N8n.Schema.{N8nWorkflow}
use shingan.Infrastructure.N8n.NodeTable.{Table, build_table}
use shingan.Infrastructure.N8n.Edges.{resolve_edges}
use shingan.Infrastructure.N8n.Entry.{entry_root_ids, pick_entry_node}

abbrev pub virtual_root : String
virtual_root = "__n8n_multi_trigger_root__"

unfoldable pub root_node : Node
root_node = record {
  id = virtual_root;
  name = "(virtual multi-root entry)";
  type = tool;
  config = ("category", text "trigger") ∷ ("virtual", boolean true) ∷ [];
  max_iterations = none;
  tool_category = "trigger";
  model_name = "";
  temperature = none;
  max_concurrency = none;
  pos = record { file = ""; line = 0; col = 0 };
  has_exit_branch = false;
}

abbrev pub root_edge : String → Edge
root_edge to = record { from = virtual_root; to = to; condition = "" }

-- The third pass, by the number of the roots.
unfoldable pub enter : Table → List Edge → List String → WorkflowGraph
unfolding root_node pick_entry_node insert
enter t edges (a ∷ b ∷ more) = record {
  nodes = insert virtual_root root_node t.nodes;
  edges = edges ++ map root_edge (a ∷ b ∷ more);
  entry_node_id = virtual_root;
  entry_ambiguous = false;
}
enter t edges _ = record {
  nodes = t.nodes;
  edges = edges;
  entry_node_id = pick_entry_node t.nodes t.node_order edges;
  entry_ambiguous = false;
}

-- Parse, after the document is decoded.
unfoldable pub of_workflow : N8nWorkflow → WorkflowGraph
unfolding build_table resolve_edges entry_root_ids enter
of_workflow wf =
    let t = build_table wf.nodes in
    let edges = resolve_edges t wf.connections in
    enter t edges (entry_root_ids t.nodes t.node_order edges)

-- Parse. json.Unmarshal is a parameter; without a document there is an error.
unfoldable pub parse : (List ℕ → Option N8nWorkflow) → List ℕ → Option WorkflowGraph
unfolding of_workflow
parse unmarshal input = elim (unmarshal input) [ none ↦ none | some wf ↦ some (of_workflow wf) ]
