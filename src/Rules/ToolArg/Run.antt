-- ===== src/Rules/ToolArg/Run.antt =====
-- domain/rules/unbounded_tool_arg.go: evaluateUnboundedToolArg, and both ways to run the rule.
pub mod Declared
mod Capped
pub mod Laws
mod Tests
use mathlib.Core.List.{flat_map}
use shingan.Prelude.{
  String, Option, none, some, List, [], ◌∷◌, foldl, lookup, values, select, is_empty, if◌then◌else◌,
}
use shingan.Prelude.Take.{take}
use shingan.Domain.NodeType.{NodeType, tool, is_tool}
use shingan.Domain.Value.{object, Fields}
use shingan.Domain.Finding.{Finding}
use shingan.Domain.Graph.{Node, WorkflowGraph}
use shingan.Domain.Context.{RuleContext, report, Listener, LocalRule, NodeHandler}
use shingan.Rules.ToolArg.{meta, schema_config_keys, max_findings_per_node, is_full}
use shingan.Rules.ToolArg.Walk.{walk_schema_root}

-- n.Config[key].(map[string]any)
unfoldable pub object_at : Node → String → Option Fields
unfolding lookup
object_at n key = elim (lookup key n.config) [ some (object schema) ↦ some schema | _ ↦ none ]

-- The loop over the keys.
unfoldable pub scan_keys : Node → List String → List Finding → List Finding
unfolding walk_schema_root take object_at
scan_keys n [] fs = fs
scan_keys n (key ∷ keys) fs = elim (object_at n key) [
  | some schema ↦
      let found = walk_schema_root n.id schema key fs in
      if is_full found then take max_findings_per_node found else scan_keys n keys found
  | none ↦ scan_keys n keys fs
]

unfoldable pub evaluate_unbounded_tool_arg : Node → List Finding
unfolding scan_keys
evaluate_unbounded_tool_arg n = scan_keys n schema_config_keys []

unfoldable handle : NodeHandler
unfolding evaluate_unbounded_tool_arg report
handle c n = foldl report c (evaluate_unbounded_tool_arg n)

abbrev handlers : NodeType → Option NodeHandler
handlers tool = some handle
handlers _ = none

unfoldable listener : RuleContext → Listener
unfolding handle
listener c = record { on_node = handlers; on_any = none; on_edge = none; on_graph = none }

unfoldable pub local_rule : LocalRule
unfolding meta listener
local_rule = record { meta = meta; listener = listener }

unfoldable pub analyze : Option WorkflowGraph → List Finding
unfolding flat_map evaluate_unbounded_tool_arg select is_tool
analyze none = []
analyze (some g) =
    if is_empty g.nodes
    then []
    else flat_map evaluate_unbounded_tool_arg (select (λ n. is_tool n.type) (values g.nodes))
