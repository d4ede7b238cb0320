-- ===== src/Rules/CircularAgents/Tests.antt =====
-- The rule on two agents that hand over to one another by a tool, and on one that hands over to itself.
use shingan.Prelude.{String, ◌≡◌, refl, ◌↔◌, false, some, [], ◌∷◌, map, select}
use shingan.Domain.NodeType.{llm, tool}
use shingan.Domain.Value.{text}
use shingan.Domain.Finding.{warning, info}
use shingan.Domain.Graph.{Node, WorkflowGraph}
use shingan.Rules.CircularAgents.{analyze}
use shingan.Rules.CircularAgents.Spec.{AgentId, Circular}
use shingan.Rules.CircularAgents.Silent.{analyze-Circular}
use shingan.Samples.{bare_node, edge}

abbrev agent_node : String → Node
agent_node id = record (bare_node id llm) { config = ("agent_role", text "worker") ∷ [] }

abbrev delegating : WorkflowGraph
delegating = record {
  nodes = ("b", agent_node "b") ∷ ("a", agent_node "a") ∷ ("t", bare_node "t" tool) ∷ [];
  edges = edge "a" "t" ∷ edge "t" "b" ∷ edge "b" "a" ∷ [];
  entry_node_id = "a";
  entry_ambiguous = false;
}

abbrev selfish : WorkflowGraph
selfish = record delegating { edges = edge "a" "a" ∷ edge "a" "t" ∷ edge "t" "a" ∷ [] }

analyze-delegating : map (λ f. f.severity) (analyze (some delegating)) ≡ warning ∷ []
unfolding analyze shingan.Prelude.Sort.sort select shingan.Domain.Config.config_string
    shingan.Prelude.lookup shingan.Prelude.Text.str_ltb shingan.Prelude.contains shingan.Prelude.any
analyze-delegating = refl

analyze-selfish : map (λ f. f.severity) (analyze (some selfish)) ≡ info ∷ []
unfolding analyze shingan.Prelude.Sort.sort select shingan.Domain.Config.config_string
    shingan.Prelude.lookup shingan.Prelude.Text.str_ltb shingan.Prelude.any shingan.Prelude.contains
analyze-selfish = refl

analyze-Circular_example :
    (analyze (some delegating) ≡ [])
    ↔ ((a : String) → AgentId delegating a → ¬ Circular delegating a)
analyze-Circular_example = analyze-Circular delegating
