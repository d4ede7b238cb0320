-- ===== src/Rules/ToolDescription/Tests.antt =====
-- The rule on a tool with a short description, and with a name that is a sentence.
use shingan.Prelude.{true, false, String, ◌≡◌, refl, some, [], ◌∷◌}
use shingan.Domain.NodeType.{tool}
use shingan.Domain.Value.{text}
use shingan.Domain.Graph.{WorkflowGraph}
use shingan.Rules.ToolDescription.{description_finding, byte_length, analyze}
use shingan.Samples.{bare_node}

abbrev toolbox : String → String → WorkflowGraph
toolbox name summary = record {
  nodes =
      ("t", record (bare_node "t" tool) { name = name; config = ("summary", text summary) ∷ [] })
      ∷ [];
  edges = [];
  entry_node_id = "t";
  entry_ambiguous = false;
}

analyze-short : analyze (some (toolbox "sendMail" "  sends it ")) ≡ description_finding "t" ∷ []
unfolding analyze shingan.Prelude.lookup shingan.Prelude.any shingan.Domain.Config.config_string
analyze-short = refl

analyze-sentence : analyze (some (toolbox "Send the mail" "")) ≡ []
unfolding analyze shingan.Prelude.lookup shingan.Prelude.any shingan.Domain.Config.config_string
analyze-sentence = refl

byte_length-accent : byte_length "aé" ≡ 3
unfolding byte_length
byte_length-accent = refl
