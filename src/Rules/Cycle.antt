-- ===== src/Rules/Cycle.antt =====
-- domain/rules/cycle.go: cycles of the graph, and whether a loop node bounds them.
pub mod Verdict
pub mod Spec
pub mod Marks
pub mod Search
pub mod Calls
pub mod Depth
pub mod Roots
pub mod Correct
pub mod Determinism
mod Tests
use shingan.Prelude.{
  ℕ, zero, suc, String, Bool, true, false, not, Option, none, some, List, [], ◌∷◌, ◌++◌, foldl,
  ◌==◌, ◌&&◌, ◌||◌, Dict, lookup, insert, get_or, is_empty, keys, contains, any, length,
  if◌then◌else◌,
}
use shingan.Prelude.Int.{ℤ, pos, leb_ℤ}
use shingan.Prelude.Text.{str_ltb}
use shingan.Prelude.Sort.{sort}
use shingan.Domain.NodeType.{to_string}
use shingan.Domain.Value.{Value}
use shingan.Domain.Finding.{
  Finding, info, warning, critical, lit, quoted, number, label, value, empty_finding,
  exact_static_match,
}
use shingan.Domain.Graph.{Node, Edge, WorkflowGraph, outgoing_edges}
use shingan.Domain.Config.{get_max_iterations, raw_config_value}
use shingan.Rules.LoopGuard.{is_loop_node}

abbrev pub rule_name : String
rule_name = "cycle_detection"

pub data VisitState : Type 0 where
  unvisited in_progress completed : VisitState

abbrev pub is_loop : Option Node → Bool
is_loop none = false
is_loop (some n) = is_loop_node n.type

-- The scan of the path from its end: the nearest loop node.
unfoldable pub find_parent_control : WorkflowGraph → List String → Option Node
find_parent_control g [] = none
find_parent_control g (id ∷ path) = elim (find_parent_control g path) [
  | some n ↦ some n
  | none ↦ let n = lookup id g.nodes in if is_loop n then n else none
]

-- The path from the first place of a node on.
unfoldable pub from_first : String → List String → List String
from_first c [] = []
from_first c (id ∷ path) = if id == c then id ∷ path else from_first c path

abbrev pub exit_flag : WorkflowGraph → String → Bool
exit_flag g id = elim (lookup id g.nodes) [ none ↦ false | some n ↦ n.has_exit_branch ]

unfoldable pub cycle_has_exit : WorkflowGraph → String → List String → Bool
cycle_has_exit g c path =
    let cycle_set = c ∷ from_first c path in
    any (λ e. contains cycle_set e.from && not (contains cycle_set e.to)) g.edges
    || any (exit_flag g) cycle_set

abbrev report : String → Finding
report c = record empty_finding {
  rule_name = rule_name;
  severity = critical;
  node_id = c;
  confidence = 100;
  confidence_reason = exact_static_match;
}

abbrev unknown_node : String → Finding
unknown_node c = record (report c) {
  message = lit "cycle detected at unknown node " ∷ quoted c ∷ [];
  suggestion = lit "Remove the cycle or add a Control node with max_iterations < 100." ∷ [];
}

abbrev inside_unbounded : String → Node → Finding
inside_unbounded c parent = record (report c) {
  message =
      lit "cycle detected inside Loop node "
      ∷ quoted parent.id
      ∷ lit " via sub-agent "
      ∷ quoted c
      ∷ lit " — MaxIterations not set: risk of infinite loop"
      ∷ [];
  suggestion = lit "Set MaxIterations on the Loop (LoopAgent) node to prevent infinite loops." ∷ [];
}

abbrev inside_high : String → Node → Finding
inside_high c parent = record (report c) {
  severity = info;
  message =
      lit "cycle detected inside Loop node "
      ∷ quoted parent.id
      ∷ lit " via sub-agent "
      ∷ quoted c
      ∷ lit " (max_iterations >= 100)"
      ∷ [];
  suggestion =
      lit "Consider reducing max_iterations below 100 to limit long-running workflows." ∷ [];
}

abbrev with_exit : String → Node → Finding
with_exit c node = record (report c) {
  severity = warning;
  message =
      lit "bounded cycle through non-Loop node "
      ∷ quoted c
      ∷ lit " (type="
      ∷ label (to_string node.type)
      ∷ lit
          "): the cycle has an exit branch, but no explicit max_iterations / recursion_limit guard"
      ∷ [];
  suggestion =
      lit
        "The cycle is bounded by a conditional exit (typical LangGraph tool-calling agent pattern). Consider explicit `max_iterations` on a Loop wrapper or `graph.compile(recursion_limit=...)` to surface the bound at the graph level rather than relying on the framework default."
      ∷ [];
  confidence = 90;
}

abbrev without_guard : String → Node → Finding
without_guard c node = record (report c) {
  message =
      lit "cycle detected at non-Loop node "
      ∷ quoted c
      ∷ lit " (type="
      ∷ label (to_string node.type)
      ∷ lit "): graph definition error"
      ∷ [];
  suggestion =
      lit
        "Cycles must be managed by a Loop (LoopAgent) node. Review the graph edges or add a Loop node to guard the cycle."
      ∷ [];
}

-- A value that is no number counts as a high bound.
abbrev parent_unset : String → Node → Option Value → Finding
parent_unset c parent (some _) = inside_high c parent
parent_unset c parent none = inside_unbounded c parent

-- A bound that is set and below 100 is safe: the zero Finding.
abbrev parent_verdict : String → Node → Option ℤ → Finding
parent_verdict c parent (some n) = if leb_ℤ (pos 100) n then inside_high c parent else empty_finding
parent_verdict c parent none = parent_unset c parent (raw_config_value parent "max_iterations")

abbrev loop_high : String → ℤ → Finding
loop_high c n = record (report c) {
  severity = warning;
  message =
      lit "Loop node "
      ∷ quoted c
      ∷ lit " has max_iterations="
      ∷ number n
      ∷ lit " (>= 100): high iteration count may cause long-running or expensive workflows"
      ∷ [];
  suggestion =
      lit "Consider reducing max_iterations below 100 or adding an early-exit condition." ∷ [];
}

abbrev loop_unset : String → Option Value → Finding
loop_unset c (some raw) = record (report c) {
  message =
      lit "Loop node "
      ∷ quoted c
      ∷ lit " has max_iterations set to an unparseable value "
      ∷ value raw
      ∷ lit ": risk of infinite loop"
      ∷ [];
  suggestion = lit "Set max_iterations to a valid integer less than 100." ∷ [];
}
loop_unset c none = record (report c) {
  message =
      lit "Loop node "
      ∷ quoted c
      ∷ lit " has a cycle but max_iterations is not set: risk of infinite loop"
      ∷ [];
  suggestion = lit "Set max_iterations to a value less than 100 on the Loop node." ∷ [];
}

abbrev loop_verdict : String → Node → Option ℤ → Finding
loop_verdict c node (some n) = if leb_ℤ (pos 100) n then loop_high c n else empty_finding
loop_verdict c node none = loop_unset c (raw_config_value node "max_iterations")

abbrev other_verdict : WorkflowGraph → String → List String → Node → Option Node → Finding
other_verdict g c path node (some parent) = parent_verdict c parent (get_max_iterations parent)
other_verdict g c path node none =
    if cycle_has_exit g c path then with_exit c node else without_guard c node

abbrev verdict : WorkflowGraph → String → List String → Option Node → Finding
verdict g c path none = unknown_node c
verdict g c path (some node) =
    if is_loop_node node.type
    then loop_verdict c node (get_max_iterations node)
    else other_verdict g c path node (find_parent_control g path)

unfoldable pub evaluate_cycle : WorkflowGraph → String → List String → Finding
evaluate_cycle g c path = verdict g c path (lookup c g.nodes)

-- The variables that the closure `dfs` captures. `seen_cycle` holds the keys set to true.
pub record Dfs : Type 0 where
  pub state : Dict VisitState
  pub seen_cycle : List String
  pub findings : List Finding

abbrev pub state_of : Dfs → String → VisitState
state_of s id = get_or id unvisited s.state

abbrev pub set_state : String → VisitState → Dfs → Dfs
set_state id v s = record s { state = insert id v s.state }

abbrev pub fresh : Dfs
fresh = record { state = []; seen_cycle = []; findings = [] }

unfoldable pub edge_less : Edge → Edge → Bool
edge_less a b = if a.to == b.to then str_ltb a.condition b.condition else str_ltb a.to b.to

module _ (g : WorkflowGraph) where
  unfoldable pub back_edge : String → List String → Dfs → Dfs
  back_edge target path s =
      if contains s.seen_cycle target
      then s
      else let f = evaluate_cycle g target path in
        if f.rule_name == ""
        then s
        else record s { seen_cycle = target ∷ s.seen_cycle; findings = s.findings ++ f ∷ [] }

  -- One pass of the loop over the outgoing edges; `recurse` is the call of `dfs`.
  unfoldable pub follow : (String → List String → Dfs → Dfs) → List String → Dfs → Edge → Dfs
  unfolding back_edge
  follow recurse path s e = elim (state_of s e.to) [
    | in_progress ↦ back_edge e.to path s
    | unvisited ↦ elim (lookup e.to g.nodes) [ none ↦ s | some _ ↦ recurse e.to path s ]
    | completed ↦ s
  ]

  -- The closure `dfs`, to a depth of `fuel` calls; `explore_to_deeper` says that the nodes bound it.
  unfoldable pub dfs : ℕ → String → List String → Dfs → Dfs
  unfolding follow
  dfs zero id path s = s
  dfs (suc fuel) id path s =
      let current_path = path ++ id ∷ [] in
      let after =
        foldl (follow (dfs fuel) current_path) (set_state id in_progress s)
          (sort edge_less (outgoing_edges g id)) in
      set_state id completed after

  unfoldable pub visit_isolated : ℕ → Dfs → String → Dfs
  unfolding dfs
  visit_isolated depth s id = elim (state_of s id) [ unvisited ↦ dfs depth id [] s | _ ↦ s ]

  unfoldable pub from_entry : ℕ → Dfs
  unfolding dfs
  from_entry depth = elim (lookup g.entry_node_id g.nodes) [
    | none ↦ fresh
    | some _ ↦ dfs depth g.entry_node_id [] fresh
  ]

  -- The two searches of `Analyze`, with calls nested to a given depth.
  unfoldable pub explore_to : ℕ → Dfs
  unfolding visit_isolated from_entry
  explore_to depth = foldl (visit_isolated depth) (from_entry depth) (sort str_ltb (keys g.nodes))

  -- A node is entered once, so the nodes bound the depth.
  unfoldable pub explore : Dfs
  unfolding explore_to
  explore = explore_to (length g.nodes)

unfoldable pub analyze : Option WorkflowGraph → List Finding
unfolding explore
analyze none = []
analyze (some g) = if is_empty g.nodes then [] else (explore g).findings
