-- ===== src/Rules/LoopGuard.antt =====
-- domain/rules/loopguard.go: loop nodes without a bound on their iterations.
pub mod Laws
mod Tests
use shingan.Prelude.{
  Bool, true, false, Option, none, some, List, [], ◌∷◌, is_empty, Dict, if◌then◌else◌,
}
use shingan.Domain.NodeType.{NodeType, loop, control}
use shingan.Domain.Finding.{Finding, critical, lit, quoted, empty_finding, exact_static_match}
use shingan.Domain.Graph.{Node, WorkflowGraph}
use shingan.Domain.Context.{RuleMeta, RuleContext, report, NodeHandler, Listener, LocalRule}
use shingan.Domain.Config.{get_max_iterations}

unfoldable pub is_loop_node : NodeType → Bool
is_loop_node loop = true
is_loop_node control = true
is_loop_node _ = false

unfoldable pub evaluate_loop_guard : Node → Option Finding
evaluate_loop_guard node = elim (get_max_iterations node) [
  | some _ ↦ none
  | none ↦ some (record empty_finding {
    rule_name = "loop_guard";
    severity = critical;
    node_id = node.id;
    message =
        lit "LoopAgent "
        ∷ quoted node.name
        ∷ lit " has no MaxIterations configured — potential infinite loop"
        ∷ [];
    suggestion =
        lit
          "Set MaxIterations to a bounded value (recommended: 3-10 for testing, 50-100 for production)"
        ∷ [];
    confidence = 100;
    confidence_reason = exact_static_match;
  })
]

unfoldable pub meta : RuleMeta
meta = record { name = "loop_guard"; severity = critical; fixable = false }

unfoldable pub handle : NodeHandler
unfolding evaluate_loop_guard
handle c n = elim (evaluate_loop_guard n) [ some f ↦ report c f | none ↦ c ]

abbrev handlers : NodeType → Option NodeHandler
handlers loop = some handle
handlers control = some handle
handlers _ = none

unfoldable pub listener : RuleContext → Listener
unfolding handle
listener c = record { on_node = handlers; on_any = none; on_edge = none; on_graph = none }

unfoldable pub local_rule : LocalRule
unfolding meta listener
local_rule = record { meta = meta; listener = listener }

unfoldable pub check_nodes : Dict Node → List Finding
unfolding evaluate_loop_guard is_loop_node
check_nodes [] = []
check_nodes ((_, n) ∷ rest) =
    let later = check_nodes rest in
    if is_loop_node n.type
    then elim (evaluate_loop_guard n) [ some f ↦ f ∷ later | none ↦ later ]
    else later

unfoldable pub analyze : Option WorkflowGraph → List Finding
unfolding check_nodes
analyze none = []
analyze (some g) = if is_empty g.nodes then [] else check_nodes g.nodes
