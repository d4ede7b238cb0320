-- ===== src/Rules/HumanGate.antt =====
-- domain/rules/human_gate_missing.go: deployed workflows that act on the world with no human in them;
-- and findDeploySignal of domain/rules/missing_eval_dataset.go.
pub mod Laws
mod Tests
use shingan.Prelude.{
  ℕ, ◌+◌, String, Bool, true, false, not, ◌&&◌, ◌||◌, ◌==◌, Option, none, some, List, [], ◌∷◌, map,
  any, Dict, lookup, is_empty, leb, nat_eq, if◌then◌else◌,
}
use shingan.Prelude.Text.{codes}
use shingan.Prelude.Words.{to_lower, has_word, same_codes}
use shingan.Domain.NodeType.{NodeType, human, is_tool}
use shingan.Domain.Value.{Value, boolean, text}
use shingan.Domain.Finding.{Finding, warning, empty_finding, lit, quoted, heuristic_pattern}
use shingan.Domain.Graph.{Node, WorkflowGraph}
use shingan.Domain.Context.{RuleMeta, RuleContext, report, Listener, LocalRule, GraphHandler}
use shingan.Domain.Config.{get_tool_category}
use shingan.Application.Ignore.RuleList.{trim, is_space, trim_left, trim_right}

unfoldable pub meta : RuleMeta
meta = record { name = "human_gate_missing"; severity = warning; fixable = false }

-- set[strings.ToLower(strings.TrimSpace(s))]
unfoldable pub in_set : List String → String → Bool
unfolding to_lower same_codes is_space trim_left trim_right codes
in_set words s = any (λ w. same_codes (codes w) (to_lower (trim is_space s))) words

abbrev pub deploy_env_values : List String
deploy_env_values = "prod" ∷ "production" ∷ "staging" ∷ "stg" ∷ []

abbrev pub is_true : Option Value → Bool
is_true (some (boolean b)) = b
is_true _ = false

unfoldable pub names_env : Option Value → Bool
unfolding in_set
names_env (some (text env)) = in_set deploy_env_values env
names_env _ = false

-- The body of the loop in findDeploySignal.
unfoldable pub is_deployed : Node → Bool
unfolding names_env
is_deployed n =
    is_true (lookup "deployment" n.config)
    || is_true (lookup "deploy" n.config)
    || names_env (lookup "env" n.config)
    || names_env (lookup "environment" n.config)

abbrev pub sensitive_categories : List String
sensitive_categories = "code_execution" ∷ "code_eval" ∷ "api" ∷ "mcp" ∷ "browser" ∷ "trigger" ∷ []

abbrev pub sensitive_action_keywords : List String
sensitive_action_keywords =
    "send" ∷ "post" ∷ "delete" ∷ "remove" ∷ "transfer" ∷ "payment" ∷ "charge" ∷ "email" ∷ "webhook"
    ∷ "execute" ∷ "deploy" ∷ "publish" ∷ "fire" ∷ []

-- The body of the loop in findSensitiveAction.
unfoldable pub is_sensitive : Node → Bool
unfolding is_tool in_set has_word to_lower get_tool_category codes
is_sensitive n =
    let cat = get_tool_category n in
    is_tool n.type
    && (not (cat == "") && in_set sensitive_categories cat
        || any (λ kw. has_word (to_lower n.name) (codes kw)) sensitive_action_keywords)

-- The key of the first node, in the order of the map, that passes a test.
unfoldable pub first_key : (Node → Bool) → Dict Node → Option String
first_key p [] = none
first_key p ((id, n) ∷ rest) = let later = first_key p rest in if p n then some id else later

unfoldable pub find_deploy_signal : WorkflowGraph → Option String
unfolding first_key is_deployed
find_deploy_signal g = first_key is_deployed g.nodes

unfoldable pub find_sensitive_action : WorkflowGraph → Option String
unfolding first_key is_sensitive
find_sensitive_action g = first_key is_sensitive g.nodes

unfoldable pub is_human : NodeType → Bool
is_human human = true
is_human _ = false

unfoldable pub has_human_node : Dict Node → Bool
unfolding is_human
has_human_node [] = false
has_human_node ((_, n) ∷ rest) = is_human n.type || has_human_node rest

unfoldable pub human_gate_finding : String → String → Finding
human_gate_finding deploy sensitive = record empty_finding {
  rule_name = "human_gate_missing";
  severity = warning;
  node_id = deploy;
  message =
      lit "production-deployed graph performs sensitive action via node "
      ∷ quoted sensitive
      ∷ lit " with no Human-in-the-loop approval node anywhere in the workflow"
      ∷ [];
  suggestion =
      lit
        "Add a NodeTypeHuman node before sensitive actions (API writes, code execution, payments, data egress) when the graph is deployed to production / staging. Even a single graph-wide approval point is enough to satisfy the governance check; for finer scoping see pii_leak_scanner / eval_missing."
      ∷ [];
  confidence = 60;
  confidence_reason = heuristic_pattern;
}

-- The three gates, one after the other.
unfoldable pub gated : Option String → Option String → Bool → Option Finding
unfolding human_gate_finding
gated none sensitive has_human = none
gated (some deploy) none has_human = none
gated (some deploy) (some sensitive) true = none
gated (some deploy) (some sensitive) false = some (human_gate_finding deploy sensitive)

unfoldable pub evaluate_human_gate_missing : WorkflowGraph → Option Finding
unfolding gated find_deploy_signal find_sensitive_action has_human_node
evaluate_human_gate_missing g =
    if is_empty g.nodes
    then none
    else gated (find_deploy_signal g) (find_sensitive_action g) (has_human_node g.nodes)

unfoldable pub handle : GraphHandler
unfolding evaluate_human_gate_missing report
handle c g = elim (evaluate_human_gate_missing g) [ some f ↦ report c f | none ↦ c ]

unfoldable pub listener : RuleContext → Listener
unfolding handle
listener c = record { on_node = λ _. none; on_any = none; on_edge = none; on_graph = some handle }

unfoldable pub local_rule : LocalRule
unfolding meta listener
local_rule = record { meta = meta; listener = listener }

abbrev pub one_or_none : Option Finding → List Finding
one_or_none none = []
one_or_none (some f) = f ∷ []

unfoldable pub analyze : Option WorkflowGraph → List Finding
unfolding evaluate_human_gate_missing
analyze none = []
analyze (some g) = if is_empty g.nodes then [] else one_or_none (evaluate_human_gate_missing g)
