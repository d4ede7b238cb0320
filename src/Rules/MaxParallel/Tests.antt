-- ===== src/Rules/MaxParallel/Tests.antt =====
-- The rule on a node with eleven outgoing edges, and each theorem at it.
use shingan.Prelude.{◌≡◌, refl, false, some, [], ◌∷◌, map, select}
use shingan.Domain.NodeType.{llm}
use shingan.Domain.Finding.{info}
use shingan.Domain.Graph.{WorkflowGraph, outgoing_edges}
use shingan.Rules.MaxParallel.{opts_out, analyze}
use shingan.Samples.{bare_node, edge}

abbrev fan : WorkflowGraph
fan = record {
  nodes = ("a", bare_node "a" llm) ∷ [];
  edges =
      edge "a" "b"
      ∷ edge "a" "c"
      ∷ edge "a" "d"
      ∷ edge "a" "e"
      ∷ edge "a" "f"
      ∷ edge "a" "g"
      ∷ edge "a" "h"
      ∷ edge "a" "i"
      ∷ edge "a" "j"
      ∷ edge "a" "k"
      ∷ edge "a" "l"
      ∷ [];
  entry_node_id = "a";
  entry_ambiguous = false;
}

analyze-fan : map (λ f. f.severity) (analyze (some fan)) ≡ info ∷ []
unfolding analyze outgoing_edges opts_out select
analyze-fan = refl
