-- ===== src/Rules/EvalDataset/Tests.antt =====
-- The rule on a deployed workflow, without a data set and with one.
use shingan.Prelude.{true, false, ◌≡◌, refl, some, [], ◌∷◌}
use shingan.Domain.NodeType.{llm, tool}
use shingan.Domain.Value.{Value, boolean, text, object, field, end}
use shingan.Domain.Graph.{WorkflowGraph}
use shingan.Rules.EvalDataset.{eval_finding, analyze}
use shingan.Samples.{bare_node}

abbrev deployed : Value → WorkflowGraph
deployed suite = record {
  nodes =
      ("a", record (bare_node "a" llm) { config = ("deployment", boolean true) ∷ [] })
      ∷ ("b", record (bare_node "b" tool) { config = ("evals", suite) ∷ [] })
      ∷ [];
  edges = [];
  entry_node_id = "a";
  entry_ambiguous = false;
}

analyze-blank : analyze (some (deployed (text "  "))) ≡ eval_finding "a" ∷ []
unfolding analyze shingan.Prelude.lookup shingan.Prelude.any
analyze-blank = refl

analyze-suite : analyze (some (deployed (object (field "name" (text "v1") end)))) ≡ []
unfolding analyze shingan.Prelude.lookup shingan.Prelude.any
analyze-suite = refl
