-- ===== src/Rules/Redundant/Tests.antt =====
-- The rule on three agents, two of which send the same prompt to the same model.
use shingan.Prelude.{String, ◌≡◌, refl, ◌↔◌, false, some, [], ◌∷◌, map, Memᴰ, values}
use shingan.Domain.NodeType.{llm}
use shingan.Domain.Value.{text}
use shingan.Domain.Graph.{Node, WorkflowGraph}
use shingan.Rules.Redundant.{redundant_finding, analyze}
use shingan.Rules.Redundant.Sharing.{IsRedundant, analyze-IsRedundant}
use shingan.Samples.{bare_node}

abbrev prompting : String → String → Node
prompting id prompt = record (bare_node id llm) {
  config = ("prompt_template", text prompt) ∷ [];
  model_name = "m1";
}

abbrev repeating : WorkflowGraph
repeating = record {
  nodes =
      ("b", prompting "b" "Summarise")
      ∷ ("c", prompting "c" "Translate")
      ∷ ("a", prompting "a" "Summarise")
      ∷ [];
  edges = [];
  entry_node_id = "a";
  entry_ambiguous = false;
}

analyze-repeating : map (λ f. f.node_id) (analyze (some repeating)) ≡ "a" ∷ "b" ∷ []
unfolding analyze shingan.Domain.Config.config_string shingan.Prelude.lookup
    shingan.Prelude.Sort.sort shingan.Prelude.Text.str_ltb
analyze-repeating = refl

analyze-IsRedundant_example :
    Memᴰ (redundant_finding ("a" ∷ "b" ∷ []) "a") (analyze (some repeating))
    ↔ IsRedundant repeating (redundant_finding ("a" ∷ "b" ∷ []) "a")
analyze-IsRedundant_example = analyze-IsRedundant repeating (redundant_finding ("a" ∷ "b" ∷ []) "a")
