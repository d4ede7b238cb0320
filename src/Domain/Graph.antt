-- ===== src/Domain/Graph.antt =====
-- domain/graph.go: nodes, edges and the workflow graph.
pub mod Laws
mod Tests
use shingan.Prelude.{
  ℕ, String, Bool, ◌&&◌, Option, none, some, List, [], Dict, lookup, insert, select, foldl, ◌==◌,
}
use shingan.Prelude.{nat_eq}
use shingan.Prelude.Int.{ℤ}
use shingan.Domain.NodeType.{NodeType}
use shingan.Domain.Value.{Config, Float}

pub record SourcePos : Type 0 where
  pub file : String
  pub line : ℕ
  pub col : ℕ

unfoldable pub is_zero : SourcePos → Bool
is_zero p = p.file == "" && nat_eq p.line 0 && nat_eq p.col 0

pub record Node : Type 0 where
  pub id : String
  pub name : String
  pub type : NodeType
  pub config : Config
  pub max_iterations : Option ℤ
  pub tool_category : String
  pub model_name : String
  pub temperature : Option Float
  pub max_concurrency : Option ℤ
  pub pos : SourcePos
  pub has_exit_branch : Bool

pub record Edge : Type 0 where
  pub from : String
  pub to : String
  pub condition : String

pub record WorkflowGraph : Type 0 where
  pub nodes : Dict Node
  pub edges : List Edge
  pub entry_node_id : String
  pub entry_ambiguous : Bool

-- The decoded JSON document: nodes are an array, with `none` for a null.
pub record WorkflowGraphJson : Type 0 where
  pub nodes : List (Option Node)
  pub edges : List Edge
  pub entry_node_id : String
  pub entry_ambiguous : Bool

unfoldable pub add_node : Dict Node → Option Node → Dict Node
add_node m none = m
add_node m (some n) = insert n.id n m

-- WorkflowGraph.UnmarshalJSON after the document is decoded.
unfoldable pub of_json : WorkflowGraphJson → WorkflowGraph
unfolding add_node
of_json raw = record {
  nodes = foldl add_node [] raw.nodes;
  edges = raw.edges;
  entry_node_id = raw.entry_node_id;
  entry_ambiguous = raw.entry_ambiguous;
}

unfoldable pub get_node : WorkflowGraph → String → Option Node
get_node g id = lookup id g.nodes

unfoldable pub outgoing_edges : WorkflowGraph → String → List Edge
outgoing_edges g node_id = select (λ e. e.from == node_id) g.edges

unfoldable pub incoming_edges : WorkflowGraph → String → List Edge
incoming_edges g node_id = select (λ e. e.to == node_id) g.edges
