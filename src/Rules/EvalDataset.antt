-- ===== src/Rules/EvalDataset.antt =====
-- domain/rules/missing_eval_dataset.go: deployed workflows without a data set to evaluate them on.
-- findDeploySignal stands with the rule on human gates.
mod Laws
mod Tests
use shingan.Prelude.{
  String, Bool, true, false, not, ◌==◌, Option, none, some, List, [], ◌∷◌, any, lookup, values,
  is_empty, if◌then◌else◌,
}
use shingan.Domain.Value.{Value, text, array, object, Items, nil, item, Fields, end, field}
use shingan.Domain.Finding.{Finding, warning, empty_finding, lit, quoted, heuristic_pattern}
use shingan.Domain.Graph.{Node, WorkflowGraph}
use shingan.Domain.Context.{RuleMeta, RuleContext, report, Listener, LocalRule, GraphHandler}
use shingan.Application.Ignore.RuleList.{trim, is_space}
use shingan.Rules.HumanGate.{find_deploy_signal, one_or_none}

unfoldable meta : RuleMeta
meta = record { name = "missing_eval_dataset"; severity = warning; fixable = false }

abbrev pub eval_dataset_keys : List String
eval_dataset_keys =
    "eval_dataset" ∷ "test_set" ∷ "benchmark" ∷ "eval" ∷ "evals" ∷ "test_dataset" ∷ "regression_set"
    ∷ []

-- The switch of hasEvalSignal on the type of a value.
unfoldable pub is_filled : Option Value → Bool
unfolding is_space
is_filled (some (text s)) = not (trim is_space s == "")
is_filled (some (object end)) = false
is_filled (some (object (field _ _ _))) = true
is_filled (some (array nil)) = false
is_filled (some (array (item _ _))) = true
is_filled _ = false

-- The inner loop of hasEvalSignal.
unfoldable pub declares_eval : Node → Bool
unfolding any lookup is_filled
declares_eval n = any (λ key. is_filled (lookup key n.config)) eval_dataset_keys

unfoldable pub has_eval_signal : WorkflowGraph → Bool
unfolding declares_eval
has_eval_signal g = any declares_eval (values g.nodes)

unfoldable pub eval_finding : String → Finding
eval_finding deploy = record empty_finding {
  rule_name = "missing_eval_dataset";
  severity = warning;
  node_id = deploy;
  message =
      lit "workflow is configured for production/staging deployment (node "
      ∷ quoted deploy
      ∷ lit ") but no eval dataset / benchmark is declared anywhere in the graph"
      ∷ [];
  suggestion =
      lit
        "Production AI agents need regression eval to catch model upgrades that change behaviour. Add `Config[\"eval_dataset\"]` (or `test_set` / `benchmark` / `eval`) on any node, pointing to a versioned test set with expected outputs."
      ∷ [];
  confidence = 70;
  confidence_reason = heuristic_pattern;
}

-- The two gates, one after the other.
unfoldable pub unless_evaluated : Option String → Bool → Option Finding
unfolding eval_finding
unless_evaluated none evaluated = none
unless_evaluated (some deploy) true = none
unless_evaluated (some deploy) false = some (eval_finding deploy)

unfoldable pub evaluate_missing_eval_dataset : WorkflowGraph → Option Finding
unfolding unless_evaluated find_deploy_signal has_eval_signal
evaluate_missing_eval_dataset g =
    if is_empty g.nodes then none else unless_evaluated (find_deploy_signal g) (has_eval_signal g)

unfoldable handle : GraphHandler
unfolding evaluate_missing_eval_dataset report
handle c g = elim (evaluate_missing_eval_dataset g) [ some f ↦ report c f | none ↦ c ]

unfoldable listener : RuleContext → Listener
unfolding handle
listener c = record { on_node = λ _. none; on_any = none; on_edge = none; on_graph = some handle }

unfoldable pub local_rule : LocalRule
unfolding meta listener
local_rule = record { meta = meta; listener = listener }

unfoldable pub analyze : Option WorkflowGraph → List Finding
unfolding evaluate_missing_eval_dataset
analyze none = []
analyze (some g) = if is_empty g.nodes then [] else one_or_none (evaluate_missing_eval_dataset g)
