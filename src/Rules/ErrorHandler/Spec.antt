-- ===== src/Rules/ErrorHandler/Spec.antt =====
-- What the rule on error handling looks for, on the graph itself: nodes and edges, without the loops.
use shingan.Prelude.{String, false, ◌≡◌, ◌≢◌, ◌⊎◌, some, Memᴰ, lookup, values}
use shingan.Domain.NodeType.{llm, tool, control, condition}
use shingan.Domain.Graph.{Node, Edge, WorkflowGraph}
use shingan.Rules.ErrorHandler.{is_reliable}

abbrev pub EdgeOf : WorkflowGraph → String → Edge → Type 0
EdgeOf g id e = Memᴰ e g.edges × (e.from ≡ id)

-- Some edge out of the node has a condition.
abbrev pub Branches : WorkflowGraph → String → Type 0
Branches g id = (e : Edge) × EdgeOf g id e × (e.condition ≢ "")

-- The node leads to a node that stands for a condition and branches itself.
abbrev pub LeadsToBranch : WorkflowGraph → String → Type 0
LeadsToBranch g id =
    (e : Edge) × EdgeOf g id e
    × ((next : Node) × (lookup e.to g.nodes ≡ some next)
        × ((next.type ≡ condition) ⊎ (next.type ≡ control))
        × Branches g next.id)

-- The node has an edge to the tool `t`.
abbrev pub Calls : WorkflowGraph → String → Node → Type 0
Calls g id t = (e : Edge) × EdgeOf g id e × ((lookup e.to g.nodes ≡ some t) × (t.type ≡ tool))

-- A tool that may fail and goes on regardless.
pub record IsBareTool (g : WorkflowGraph) (n : Node) : Type 0 where
  pub listed : Memᴰ n (values g.nodes)
  pub is_tool : n.type ≡ tool
  pub unreliable : is_reliable n ≡ false
  pub goes_on : (e : Edge) × EdgeOf g n.id e
  pub unhandled : ¬ (Branches g n.id ⊎ LeadsToBranch g n.id)

-- An LLM that calls tools, none of which branches, and does not branch itself.
pub record IsBareLlm (g : WorkflowGraph) (n : Node) : Type 0 where
  pub listed : Memᴰ n (values g.nodes)
  pub is_llm : n.type ≡ llm
  pub calls : (t : Node) × Calls g n.id t
  pub unhandled : ¬ (Branches g n.id ⊎ ((t : Node) × Calls g n.id t × Branches g t.id))
