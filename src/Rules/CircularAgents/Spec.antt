-- ===== src/Rules/CircularAgents/Spec.antt =====
-- Circles of delegation on the graph itself.
use shingan.Prelude.{String, true, false, ◌≡◌, ◌⊎◌, List, [], ◌∷◌, Memᴰ, keys, values, contains}
use shingan.Domain.Graph.{Node, Edge, WorkflowGraph}
use shingan.Rules.CircularAgents.{is_agent_node}

abbrev pub Goes : WorkflowGraph → String → String → Type 0
Goes g u v = (e : Edge) × Memᴰ e g.edges × (e.from ≡ u) × (e.to ≡ v)

-- From `u` through the nodes of the list, each of the graph and none of them visited or met before, and
-- on to `src`.
abbrev pub Round : WorkflowGraph → String → String → List String → List String → Type 0
Round g src u visited [] = Goes g u src
Round g src u visited (x ∷ xs) =
    Goes g u x
    × Memᴰ x (keys g.nodes)
    × (contains visited x ≡ false)
    × Round g src x (x ∷ visited) xs

-- `a` is the identifier of an agent of the graph.
abbrev pub AgentId : WorkflowGraph → String → Type 0
AgentId g a = (n : Node) × Memᴰ n (values g.nodes) × (is_agent_node n ≡ true) × (n.id ≡ a)

-- An agent that hands over to itself, or that is on a circle with another agent, no node twice.
abbrev pub Circular : WorkflowGraph → String → Type 0
Circular g a =
    Goes g a a
    ⊎ ((xs : List String) × Round g a a (a ∷ []) xs × ((b : String) × Memᴰ b xs × AgentId g b))
