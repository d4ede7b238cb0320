-- ===== src/Domain/Graph/Tests.antt =====
-- A document with a null and the same node twice.
use shingan.Prelude.{none, some, [], ◌∷◌, false}
use shingan.Domain.NodeType.{llm, tool}
use shingan.Domain.Graph.{WorkflowGraphJson}
use shingan.Samples.{bare_node}

abbrev twice : WorkflowGraphJson
twice = record {
  nodes = some (bare_node "a" llm) ∷ none ∷ some (bare_node "a" tool) ∷ [];
  edges = [];
  entry_node_id = "a";
  entry_ambiguous = false;
}
