-- ===== src/Rules/HumanGate/Tests.antt =====
-- The rule on a deployed workflow that sends mail.
use shingan.Prelude.{true, ◌≡◌, refl, false, some, List, [], ◌∷◌, map}
use shingan.Domain.NodeType.{llm, tool, human}
use shingan.Domain.Value.{text}
use shingan.Domain.Graph.{WorkflowGraph}
use shingan.Rules.HumanGate.{human_gate_finding, analyze}
use shingan.Samples.{bare_node}

abbrev mailing : WorkflowGraph
mailing = record {
  nodes =
      ("a", record (bare_node "a" llm) { config = ("env", text " Production ") ∷ [] })
      ∷ ("m", record (bare_node "m" tool) { name = "SendMail" })
      ∷ [];
  edges = [];
  entry_node_id = "a";
  entry_ambiguous = false;
}

analyze-mailing : analyze (some mailing) ≡ human_gate_finding "a" "m" ∷ []
unfolding analyze shingan.Prelude.lookup shingan.Prelude.any shingan.Domain.Config.config_string
analyze-mailing = refl

analyze-approved :
    analyze (some (record mailing { nodes = ("h", bare_node "h" human) ∷ mailing.nodes })) ≡ []
unfolding analyze shingan.Prelude.lookup shingan.Prelude.any shingan.Domain.Config.config_string
analyze-approved = refl
