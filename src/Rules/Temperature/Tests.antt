-- ===== src/Rules/Temperature/Tests.antt =====
-- An LLM that classifies at 0.5, and one at 0.25 that is not reported.
use shingan.Prelude.{String, false, ◌≡◌, refl, Option, none, some, [], ◌∷◌}
use shingan.Prelude.Int.{negsuc}
use shingan.Domain.NodeType.{llm}
use shingan.Domain.Value.{float64, Float}
use shingan.Domain.Graph.{WorkflowGraph}
use shingan.Rules.Temperature.{classification_finding, analyze}
use shingan.Samples.{bare_node}

-- A reading of numbers that refuses every text.
abbrev no_text : String → Option Float
no_text _ = none

abbrev half : Float
half = record { negative = false; mantissa = 1; exponent = negsuc 0 }

abbrev quarter : Float
quarter = record { negative = false; mantissa = 1; exponent = negsuc 1 }

abbrev classifier : Float → WorkflowGraph
classifier t = record {
  nodes =
      (
        "c",
        record (bare_node "c" llm) {
          name = "Topic Classifier";
          config = ("temperature", float64 t) ∷ [];
        },
      )
      ∷ [];
  edges = [];
  entry_node_id = "c";
  entry_ambiguous = false;
}

analyze-half : analyze no_text (some (classifier half)) ≡ classification_finding "c" half ∷ []
unfolding analyze shingan.Domain.Config.config_string
analyze-half = refl

analyze-quarter : analyze no_text (some (classifier quarter)) ≡ []
unfolding analyze shingan.Domain.Config.config_string
analyze-quarter = refl
