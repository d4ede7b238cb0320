-- ===== src/Rules/Reachability/Spec.antt =====
-- What it means that a workflow reaches a node.
use shingan.Prelude.{String, true, ◌≡◌, Memᴰ, keys}
use shingan.Domain.Graph.{Edge, WorkflowGraph}
use shingan.Rules.Reachability.{is_ai}

abbrev pub HasNode : WorkflowGraph → String → Type 0
HasNode g v = Memᴰ v (keys g.nodes)

-- An edge leads forward, and an AI port is also followed from its target to its source.
pub data Link (g : WorkflowGraph) (u : String) (v : String) : Type 0 where
  forward : (e : Edge) → Memᴰ e g.edges → e.from ≡ u → e.to ≡ v → Link g u v
  ai_port : (e : Edge) → Memᴰ e g.edges → e.to ≡ u → e.from ≡ v → is_ai e ≡ true → Link g u v

-- The nodes on the paths from the entry.
pub data Reach (g : WorkflowGraph) : String → Type 0 where
  entry : {u : String} → u ≡ g.entry_node_id → Reach g u
  step : {u v : String} → Reach g u → Link g u v → HasNode g v → Reach g v
