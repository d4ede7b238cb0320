-- ===== src/Rules/ErrorHandler/Tests.antt =====
-- The rule on an agent whose tool goes on whatever happens, and the theorem at it.
use shingan.Prelude.{String, ◌≡◌, refl, ◌↔◌, ◌⊎◌, false, some, [], ◌∷◌, map, Memᴰ}
use shingan.Domain.NodeType.{llm, tool, output, condition}
use shingan.Domain.Graph.{Node, WorkflowGraph}
use shingan.Rules.ErrorHandler.{tool_finding, llm_finding, analyze}
use shingan.Rules.ErrorHandler.Spec.{IsBareTool, IsBareLlm}
use shingan.Rules.ErrorHandler.Laws.{analyze_bare}
use shingan.Samples.{bare_node, edge, edge_if}

-- The tool `t` leads to the output `o`; the tool `u` leads to the condition `c`, which branches.
abbrev caller : WorkflowGraph
caller = record {
  nodes =
      ("a", bare_node "a" llm)
      ∷ ("c", bare_node "c" condition)
      ∷ ("o", bare_node "o" output)
      ∷ ("t", bare_node "t" tool)
      ∷ ("u", bare_node "u" tool)
      ∷ [];
  edges = edge "a" "t" ∷ edge "t" "o" ∷ edge "u" "c" ∷ edge_if "c" "a" "failed" ∷ edge "c" "o" ∷ [];
  entry_node_id = "a";
  entry_ambiguous = false;
}

analyze-caller : map (λ f. f.node_id) (analyze (some caller)) ≡ "t" ∷ "a" ∷ []
unfolding analyze shingan.Prelude.collect shingan.Prelude.select shingan.Prelude.lookup
    shingan.Domain.Graph.outgoing_edges shingan.Prelude.any
analyze-caller = refl

analyze_bare_example : Memᴰ (tool_finding (bare_node "t" tool)) (analyze (some caller)) ↔ (
    ((n : Node) × IsBareTool caller n × (tool_finding (bare_node "t" tool) ≡ tool_finding n))
    ⊎ ((n : Node) × IsBareLlm caller n × (tool_finding (bare_node "t" tool) ≡ llm_finding n)))
analyze_bare_example = analyze_bare caller (tool_finding (bare_node "t" tool))
