-- ===== src/Rules/ErrorHandler.antt =====
-- domain/rules/errorhandler.go: tools whose failures no conditional edge handles.
pub mod Spec
mod Branch
mod Bodies
pub mod Laws
mod Tests
use shingan.Prelude.{
  String, Bool, true, false, not, ◌&&◌, ◌||◌, ◌==◌, Option, none, some, List, [], ◌∷◌, ◌++◌, select,
  any, collect, values, lookup, is_empty, if◌then◌else◌,
}
use shingan.Domain.NodeType.{NodeType, control, condition, is_tool, is_llm}
use shingan.Domain.Value.{boolean}
use shingan.Domain.Finding.{
  Finding, Severity, critical, warning, info, empty_finding, lit, quoted, heuristic_pattern,
}
use shingan.Domain.Graph.{Node, Edge, WorkflowGraph, outgoing_edges}
use shingan.Domain.Context.{RuleMeta, PathContext, PathRule}
use shingan.Domain.Config.{get_tool_category}

unfoldable pub meta : RuleMeta
meta = record { name = "error_handler_checker"; severity = warning; fixable = false }

unfoldable pub sources : WorkflowGraph → List Node
unfolding is_tool
sources g = select (λ n. is_tool n.type) (values g.nodes)

unfoldable pub sinks : WorkflowGraph → List Node
unfolding is_llm
sinks g = select (λ n. is_llm n.type) (values g.nodes)

-- edge.Condition != ""
abbrev pub is_conditional : Edge → Bool
is_conditional e = not (e.condition == "")

unfoldable pub has_condition_branch : WorkflowGraph → String → Bool
has_condition_branch g id = any is_conditional (outgoing_edges g id)

unfoldable pub is_condition_node : NodeType → Bool
is_condition_node condition = true
is_condition_node control = true
is_condition_node _ = false

unfoldable pub all_unconditional : List Edge → Bool
all_unconditional [] = true
all_unconditional (e ∷ es) = if is_conditional e then false else all_unconditional es

-- The body of the loop over the edges, on the node that an edge leads to.
unfoldable pub is_branch : WorkflowGraph → Option Node → Bool
unfolding is_condition_node has_condition_branch
is_branch g none = false
is_branch g (some next) = is_condition_node next.type && has_condition_branch g next.id

unfoldable pub tool_has_error_handling : WorkflowGraph → Node → Bool
unfolding all_unconditional is_branch
tool_has_error_handling g t =
    let outgoing = outgoing_edges g t.id in
    if not (all_unconditional outgoing)
    then true
    else any (λ e. is_branch g (lookup e.to g.nodes)) outgoing

unfoldable pub is_reliable : Node → Bool
is_reliable n = elim (lookup "reliable" n.config) [ some (boolean b) ↦ b | _ ↦ false ]

unfoldable pub tool_category : Node → String
unfolding get_tool_category
tool_category n = let cat = get_tool_category n in if cat == "" then "api" else cat

unfoldable pub severity_for_category : String → Severity
severity_for_category category =
    if category == "browser"
    then critical
    else if category == "api" || category == "mcp"
    then warning
    else if category == "code"
    then info
    else warning

unfoldable pub tool_finding : Node → Finding
unfolding tool_category severity_for_category
tool_finding n =
    let category = tool_category n in
    record empty_finding {
      rule_name = "error_handler_checker";
      severity = severity_for_category category;
      node_id = n.id;
      message =
          lit "Tool node "
          ∷ quoted n.id
          ∷ lit " (category="
          ∷ quoted category
          ∷ lit ") has no conditional outgoing edges: error handling is missing"
          ∷ [];
      suggestion = lit "このノード後に条件分岐ノードを配置して、失敗時フローを定義してください" ∷ [];
      confidence = 80;
      confidence_reason = heuristic_pattern;
    }

unfoldable pub llm_finding : Node → Finding
llm_finding n = record empty_finding {
  rule_name = "error_handler_checker";
  severity = warning;
  node_id = n.id;
  message =
      lit "LLM node "
      ∷ quoted n.id
      ∷ lit
          " uses tool(s) but has no conditional outgoing edges: error handling for tool failures is missing"
      ∷ [];
  suggestion = lit "ツール呼び出し後に条件分岐ノードを配置して、失敗時フローを定義してください" ∷ [];
  confidence = 80;
  confidence_reason = heuristic_pattern;
}

abbrev pub no_edges : List Edge → Bool
no_edges [] = true
no_edges (_ ∷ _) = false

-- The body of the loop over the tools.
unfoldable pub check_tool : WorkflowGraph → Node → Option Finding
unfolding is_reliable tool_has_error_handling tool_finding
check_tool g n =
    if is_reliable n
    then none
    else if no_edges (outgoing_edges g n.id)
    then none
    else if tool_has_error_handling g n
    then none
    else some (tool_finding n)

-- The target of an edge, if it is a tool of the graph.
unfoldable pub tool_target : Option Node → Option Node
unfolding is_tool
tool_target none = none
tool_target (some target) = if is_tool target.type then some target else none

abbrev pub no_nodes : List Node → Bool
no_nodes [] = true
no_nodes (_ ∷ _) = false

-- The body of the loop over the LLMs.
unfoldable pub check_llm : WorkflowGraph → Node → Option Finding
unfolding tool_target has_condition_branch all_unconditional llm_finding
check_llm g n =
    let outgoing = outgoing_edges g n.id in
    let targets = collect (λ e. tool_target (lookup e.to g.nodes)) outgoing in
    if no_edges outgoing
    then none
    else if no_nodes targets
    then none
    else if any (λ t. has_condition_branch g t.id) targets
    then none
    else if not (all_unconditional outgoing)
    then none
    else some (llm_finding n)

unfoldable pub run_error_handler_checks : WorkflowGraph → List Node → List Node → List Finding
unfolding check_tool check_llm
run_error_handler_checks g tools llms = collect (check_tool g) tools ++ collect (check_llm g) llms

unfoldable pub propagate : PathContext → List Finding
unfolding run_error_handler_checks
propagate c = run_error_handler_checks c.graph c.sources c.sinks

unfoldable pub path_rule : PathRule
unfolding meta sources sinks propagate
path_rule = record { meta = meta; sources = sources; sinks = sinks; propagate = propagate }

unfoldable pub analyze : Option WorkflowGraph → List Finding
unfolding run_error_handler_checks sources sinks
analyze none = []
analyze (some g) = if is_empty g.nodes then [] else run_error_handler_checks g (sources g) (sinks g)
