-- ===== src/Rules/Reachability.antt =====
-- domain/rules/reachability.go: the nodes that no path from the entry reaches.
pub mod Spec
pub mod Ports
pub mod Rounds
pub mod Correct
pub mod Report
mod Tests
use shingan.Prelude.{
  ℕ, zero, suc, String, Bool, true, false, not, Option, none, some, List, [], ◌∷◌, ◌++◌, map, foldl,
  ◌==◌, ◌&&◌, starts_with, Dict, lookup, insert, get_or, is_empty, keys, contains, select, length,
  if◌then◌else◌,
}
use shingan.Prelude.Int.{pos}
use shingan.Domain.NodeType.{
  NodeType, Label, name, node_type_of, llm, tool, control, human, output, loop, condition, sequence,
  parallel, task, numbered,
}
use shingan.Domain.Finding.{
  Severity, info, warning, critical, Finding, lit, quoted, label, empty_finding, exact_static_match,
}
use shingan.Domain.Graph.{Node, Edge, WorkflowGraph, outgoing_edges}

abbrev pub rule_name : String
rule_name = "unreachable_node"

unfoldable pub severity_for : NodeType → Severity
severity_for llm = warning
severity_for tool = warning
severity_for _ = info

unfoldable pub node_type_name : NodeType → Label
node_type_name llm = name "LLM"
node_type_name tool = name "Tool"
node_type_name control = name "Control"
node_type_name loop = name "Loop"
node_type_name condition = name "Condition"
node_type_name human = name "Human"
node_type_name output = name "Output"
node_type_name task = name "Task"
node_type_name sequence = node_type_of (pos 7)
node_type_name parallel = node_type_of (pos 8)
node_type_name (numbered n) = node_type_of n

abbrev pub is_ai : Edge → Bool
is_ai e = starts_with e.condition "ai_"

-- aiReverse[edge.To] = append(aiReverse[edge.To], edge.From), for an edge with the prefix
unfoldable pub note_ai : Dict (List String) → Edge → Dict (List String)
note_ai m e = if is_ai e then insert e.to (get_or e.to [] m ++ e.from ∷ []) m else m

unfoldable pub note_node : WorkflowGraph → Dict (List String) → String → Dict (List String)
unfolding note_ai
note_node g m id = foldl note_ai m (outgoing_edges g id)

-- The map from the target of an AI port to its sources.
unfoldable pub ai_reverse : WorkflowGraph → Dict (List String)
unfolding note_node
ai_reverse g = foldl (note_node g) [] (keys g.nodes)

-- `visited` holds the keys set to true.
pub record Search : Type 0 where
  pub visited : List String
  pub queue : List String

module _ (g : WorkflowGraph) where
  unfoldable pub visit : Search → String → Search
  visit s target =
      if not (contains s.visited target) && contains (keys g.nodes) target
      then record { visited = target ∷ s.visited; queue = s.queue ++ target ∷ [] }
      else s

  -- The body of the loop, after `current` left the queue.
  unfoldable pub expand : Search → String → Search
  unfolding visit
  expand s current =
      foldl visit (foldl visit s (map (λ e. e.to) (outgoing_edges g current)))
        (get_or current [] (ai_reverse g))

  -- The loop; `search_correct` says that the fuel is enough.
  unfoldable pub run : ℕ → Search → Search
  unfolding expand
  run zero s = s
  run (suc fuel) s = elim s.queue [
    | [] ↦ s
    | current ∷ rest ↦ run fuel (expand (record s { queue = rest }) current)
  ]

  abbrev pub start : Search
  start = record { visited = g.entry_node_id ∷ []; queue = g.entry_node_id ∷ [] }

  unfoldable pub search : Search
  unfolding run
  search = run (length g.nodes) start

  abbrev pub unreachable : String × Node → Finding
  unreachable (id, node) = record empty_finding {
    rule_name = rule_name;
    severity = severity_for node.type;
    node_id = id;
    message =
        lit "node "
        ∷ quoted id
        ∷ lit " (type="
        ∷ label (node_type_name node.type)
        ∷ lit ") is unreachable from entry node "
        ∷ quoted g.entry_node_id
        ∷ [];
    suggestion = lit "Connect the node to the main workflow or remove it if it is unused." ∷ [];
    confidence = 100;
    confidence_reason = exact_static_match;
  }

abbrev pub no_entry : Finding
no_entry = record empty_finding {
  rule_name = rule_name;
  severity = critical;
  message = lit "entry node is not set: reachability analysis cannot be performed" ∷ [];
  suggestion = lit "Set EntryNodeID to the ID of the node where workflow execution begins." ∷ [];
  confidence = 100;
  confidence_reason = exact_static_match;
}

abbrev pub missing_entry : String → Finding
missing_entry entry = record empty_finding {
  rule_name = rule_name;
  severity = critical;
  node_id = entry;
  message =
      lit "entry node "
      ∷ quoted entry
      ∷ lit " does not exist in the graph: reachability analysis cannot be performed"
      ∷ [];
  suggestion = lit "Ensure EntryNodeID matches a registered node ID." ∷ [];
  confidence = 100;
  confidence_reason = exact_static_match;
}

unfoldable pub analyze_graph : WorkflowGraph → List Finding
unfolding search
analyze_graph g =
    if is_empty g.nodes
    then []
    else if g.entry_ambiguous && g.entry_node_id == ""
    then []
    else if g.entry_node_id == ""
    then no_entry ∷ []
    else if contains (keys g.nodes) g.entry_node_id
    then map (unreachable g) (select (λ n. not (contains (search g).visited n.0)) g.nodes)
    else missing_entry g.entry_node_id ∷ []

-- A nil graph has no findings.
unfoldable pub analyze : Option WorkflowGraph → List Finding
unfolding analyze_graph
analyze none = []
analyze (some g) = analyze_graph g
