-- ===== src/Rules/Cost.antt =====
-- domain/rules/cost.go: expensive models in loops, or for simple tasks.
pub mod Walks
pub mod Idle
pub mod Depth
pub mod Report
mod Tests
use shingan.Prelude.{
  ℕ, zero, suc, String, Bool, true, false, ◌==◌, Option, none, some, List, [], ◌∷◌, ◌++◌, foldl,
  Dict, collect, contains, insert, is_empty, keys, length, lookup, get_or, select, values,
  if◌then◌else◌,
}
use shingan.Domain.NodeType.{is_llm}
use shingan.Domain.Config.{get_model_name}
use shingan.Domain.Finding.{Finding, warning, info, empty_finding, lit, quoted, heuristic_pattern}
use shingan.Domain.Graph.{Node, Edge, WorkflowGraph, outgoing_edges}
use shingan.Domain.Context.{RuleMeta, PathContext, PathRule}
use shingan.Rules.CircularAgents.{string_config}
use shingan.Rules.Cycle.{VisitState, unvisited, in_progress, completed}

pub data CostTier : Type 0 where
  unknown low mid high : CostTier

abbrev pub high_models : List String
high_models =
    "gpt-4o" ∷ "gpt-4-turbo" ∷ "claude-3-opus" ∷ "claude-3-5-sonnet" ∷ "gemini-1.5-pro" ∷ []

abbrev pub mid_models : List String
mid_models = "claude-3-haiku" ∷ "gemini-1.5-flash" ∷ []

abbrev pub low_models : List String
low_models = "gpt-4o-mini" ∷ "gpt-3.5-turbo" ∷ []

-- A model that is not in the table counts as mid.
unfoldable pub tier_for : String → CostTier
unfolding contains
tier_for model =
    if contains high_models model
    then high
    else if contains mid_models model
    then mid
    else if contains low_models model
    then low
    else mid

-- The variables that the closure `dfs` captures; the stack is an argument of its calls.
pub record Loops : Type 0 where
  pub state : Dict VisitState
  pub in_loop : List String

abbrev pub state_at : Loops → String → VisitState
state_at s id = get_or id unvisited s.state

abbrev pub mark : String → VisitState → Loops → Loops
mark id v s = record s { state = insert id v s.state }

module _ (g : WorkflowGraph) where
  -- The body of the loop over the outgoing edges; `recurse` is the call of `dfs`.
  unfoldable pub step : (String → List String → Loops → Loops) → List String → Loops → Edge → Loops
  unfolding lookup
  step recurse stack s e = elim (state_at s e.to) [
    | in_progress ↦ record s { in_loop = stack ++ s.in_loop }
    | unvisited ↦ elim (lookup e.to g.nodes) [ none ↦ s | some _ ↦ recurse e.to stack s ]
    | completed ↦ s
  ]

  -- The closure `dfs`, to a depth of `fuel` calls: each call inside another is at one more node in
  -- progress, so that the number of nodes is deep enough.
  unfoldable pub dfs : ℕ → String → List String → Loops → Loops
  unfolding step insert outgoing_edges
  dfs zero id stack s = s
  dfs (suc fuel) id stack s =
      let pushed = stack ++ id ∷ [] in
      mark id completed
        (foldl (step (dfs fuel) pushed) (mark id in_progress s) (outgoing_edges g id))

  unfoldable pub search_rest : ℕ → Loops → String → Loops
  unfolding dfs
  search_rest depth s id = elim (state_at s id) [ unvisited ↦ dfs depth id [] s | _ ↦ s ]

  abbrev pub no_loops : Loops
  no_loops = record { state = []; in_loop = [] }

  unfoldable pub search_entry : ℕ → Loops
  unfolding dfs lookup
  search_entry depth = elim (lookup g.entry_node_id g.nodes) [
    | none ↦ no_loops
    | some _ ↦ dfs depth g.entry_node_id [] no_loops
  ]

  unfoldable pub loops_to : ℕ → Loops
  unfolding search_rest search_entry
  loops_to depth = foldl (search_rest depth) (search_entry depth) (keys g.nodes)

  unfoldable pub nodes_in_loops : List String
  unfolding loops_to
  nodes_in_loops = (loops_to (length g.nodes)).in_loop

abbrev pub advice_in_loop : String
advice_in_loop = "ループ内で高額モデルが使用されています。推定コストが反復回数×単価でスケールします。miniモデルへの置換を検討してください"

abbrev pub advice_simple : String
advice_simple = "単純タスクに高額モデルが使用されています。より安価なモデルを検討してください"

unfoldable pub loop_finding : String → String → Finding
loop_finding id model = record empty_finding {
  rule_name = "cost_estimation";
  severity = warning;
  node_id = id;
  message =
      lit "LLM node "
      ∷ quoted id
      ∷ lit " uses high-cost model "
      ∷ quoted model
      ∷ lit " inside a loop"
      ∷ [];
  suggestion = lit advice_in_loop ∷ [];
  confidence = 70;
  confidence_reason = heuristic_pattern;
}

unfoldable pub simple_finding : String → String → Finding
simple_finding id model = record empty_finding {
  rule_name = "cost_estimation";
  severity = info;
  node_id = id;
  message =
      lit "LLM node "
      ∷ quoted id
      ∷ lit " uses high-cost model "
      ∷ quoted model
      ∷ lit " for a simple task"
      ∷ [];
  suggestion = lit advice_simple ∷ [];
  confidence = 70;
  confidence_reason = heuristic_pattern;
}

abbrev pub is_high : CostTier → Bool
is_high high = true
is_high _ = false

-- The body of the loop over the LLM nodes.
unfoldable pub check_cost : List String → Node → Option Finding
unfolding get_model_name tier_for contains loop_finding simple_finding string_config
check_cost in_loop n =
    let model = get_model_name n in
    if is_high (tier_for model)
    then (if contains in_loop n.id
        then some (loop_finding n.id model)
        else if string_config n "task_complexity" == "simple"
        then some (simple_finding n.id model)
        else none)
    else none

unfoldable pub run_cost_checks : List Node → List String → List Finding
unfolding collect check_cost
run_cost_checks llms in_loop = collect (check_cost in_loop) llms

unfoldable meta : RuleMeta
meta = record { name = "cost_estimation"; severity = warning; fixable = false }

unfoldable pub sources : WorkflowGraph → List Node
unfolding is_llm select
sources g = select (λ n. is_llm n.type) (values g.nodes)

unfoldable sinks : WorkflowGraph → List Node
sinks g = []

unfoldable propagate : PathContext → List Finding
unfolding run_cost_checks nodes_in_loops
propagate c = run_cost_checks c.sources (nodes_in_loops c.graph)

unfoldable pub path_rule : PathRule
unfolding meta sources sinks propagate
path_rule = record { meta = meta; sources = sources; sinks = sinks; propagate = propagate }

unfoldable pub analyze : Option WorkflowGraph → List Finding
unfolding run_cost_checks nodes_in_loops sources
analyze none = []
analyze (some g) = if is_empty g.nodes then [] else run_cost_checks (sources g) (nodes_in_loops g)
