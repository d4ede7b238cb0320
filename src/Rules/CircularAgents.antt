-- ===== src/Rules/CircularAgents.antt =====
-- domain/rules/circular_dep_agents.go: agents that hand over to one another in a circle.
pub mod Spec
pub mod Search
pub mod Rounds
pub mod Silent
mod Tests
use Prim.Native.String.{◌++◌ as ◌+++◌}
use shingan.Prelude.{
  ℕ, zero, suc, String, Bool, true, false, not, ◌&&◌, ◌||◌, ◌==◌, Option, none, some, List, [], ◌∷◌,
  ◌++◌, foldl, map, select, any, contains, keys, values, lookup, is_empty, length, leb, nat_eq,
  if◌then◌else◌,
}
use shingan.Prelude.Int.{pos}
use shingan.Prelude.Text.{str_ltb}
use shingan.Prelude.Sort.{sort}
use shingan.Domain.NodeType.{is_llm}
use shingan.Domain.Value.{Value, null, texts, array, nil}
use shingan.Domain.Finding.{
  Finding, warning, info, Message, empty_finding, lit, quoted, plain, number, exact_static_match,
  heuristic_pattern,
}
use shingan.Domain.Graph.{Node, Edge, WorkflowGraph, outgoing_edges}
use shingan.Domain.Context.{RuleMeta, PathContext, PathRule}
use shingan.Domain.Config.{config_string}

unfoldable pub meta : RuleMeta
meta = record { name = "circular_dep_agents"; severity = warning; fixable = false }

-- strings.Join
unfoldable pub join : String → List String → String
join sep [] = ""
join sep (x ∷ []) = x
join sep (x ∷ y ∷ rest) = x +++ (sep +++ join sep (y ∷ rest))

-- rules/cost.go, stringConfig
unfoldable pub string_config : Node → String → String
string_config n key = config_string n.config key

-- The type switch on the value of sub_agents.
unfoldable pub has_sub_agents : Option Value → Bool
has_sub_agents none = false
has_sub_agents (some null) = false
has_sub_agents (some (array nil)) = false
has_sub_agents (some (texts [])) = false
has_sub_agents (some _) = true

unfoldable pub is_agent_node : Node → Bool
unfolding is_llm string_config has_sub_agents
is_agent_node n =
    is_llm n.type
    && (not (string_config n "agent_role" == "") || has_sub_agents (lookup "sub_agents" n.config))

unfoldable pub sources : WorkflowGraph → List Node
unfolding is_agent_node
sources g = sort (λ a b. str_ltb a.id b.id) (select is_agent_node (values g.nodes))

unfoldable pub sinks : WorkflowGraph → List Node
sinks g = []

pub record CycleInfo : Type 0 where
  pub members : List String
  pub path : List String
  pub is_self : Bool

-- The agents on a path, each once, in order: `seen` are those found before.
unfoldable pub members_from : List String → List String → List String → List String
members_from agents seen [] = []
members_from agents seen (id ∷ ids) =
    let again = members_from agents seen ids in
    let later = members_from agents (id ∷ seen) ids in
    if contains agents id && not (contains seen id) then id ∷ later else again

-- A search that goes on from a node: the path, and what is visited on it.
abbrev pub SearchFrom : Type 0
SearchFrom = String → List String → List String → Option (List String)

-- `if dfs(next) { return true }`, before the rest of the loop.
abbrev pub or_found : Option (List String) → Option (List String) → Option (List String)
or_found (some p) rest = some p
or_found none rest = rest

-- The loop over the edges of a node. A search that fails leaves path and visited as they were.
unfoldable pub scan :
    WorkflowGraph
    → List String
    → String
    → SearchFrom
    → List String
    → List String
    → List Edge
    → Option (List String)
unfolding members_from
scan g agents src recurse path visited [] = none
scan g agents src recurse path visited (e ∷ es) =
    let rest = scan g agents src recurse path visited es in
    let below = recurse e.to (path ++ e.to ∷ []) (e.to ∷ visited) in
    if e.to == src && leb 2 (length path)
    then (if leb 2 (length (members_from agents [] path)) then some path else rest)
    else if contains visited e.to
    then rest
    else if not (contains (keys g.nodes) e.to)
    then rest
    else or_found below rest

-- The path of the first cycle found, without its last step back. The closure `dfs`; the first argument
-- bounds the depth of its calls.
unfoldable pub dfs : ℕ → WorkflowGraph → List String → String → SearchFrom
unfolding scan outgoing_edges
dfs zero g agents src node path visited = none
dfs (suc depth) g agents src node path visited =
    scan g agents src (dfs depth g agents src) path visited (outgoing_edges g node)

-- The variables that `report` changes.
pub record Reports : Type 0 where
  pub emitted : List String
  pub findings : List Finding

unfoldable pub self_finding : String → Finding
self_finding id = record empty_finding {
  rule_name = "circular_dep_agents";
  severity = info;
  node_id = id;
  message =
      lit "agent "
      ∷ quoted id
      ∷ lit
          " references itself (self-handoff). This may be intentional recursion; verify a depth/budget guard."
      ∷ [];
  suggestion =
      lit "Agent "
      ∷ quoted id
      ∷ lit
          " can hand off to itself. If this is intentional self-recursion (e.g. iterative planner), set an explicit `max_handoffs` budget; otherwise switch to a top-level orchestrator that controls the loop."
      ∷ [];
  confidence = 60;
  confidence_reason = heuristic_pattern;
}

unfoldable pub pair_finding : String → String → String → List String → Finding
unfolding join
pair_finding id a b path = record empty_finding {
  rule_name = "circular_dep_agents";
  severity = warning;
  node_id = id;
  message =
      lit "agents "
      ∷ quoted a
      ∷ lit " and "
      ∷ quoted b
      ∷ lit " form a 2-agent delegation cycle ("
      ∷ plain (join " → " path)
      ∷ lit ")"
      ∷ [];
  suggestion =
      lit "Agent "
      ∷ plain a
      ∷ lit " can transfer control to agent "
      ∷ plain b
      ∷ lit " which can transfer back to "
      ∷ plain a
      ∷ lit
          ". Without a depth/budget guard this risks infinite delegation. Consider an `orchestrator` pattern (top-level agent makes all transfer decisions) or explicit `max_handoffs`."
      ∷ [];
  confidence = 85;
  confidence_reason = exact_static_match;
}

unfoldable pub circle_finding : String → List String → List String → Finding
unfolding join
circle_finding id members path = record empty_finding {
  rule_name = "circular_dep_agents";
  severity = warning;
  node_id = id;
  message =
      number (pos (length members))
      ∷ lit " agents form a delegation cycle: "
      ∷ plain (join " → " path)
      ∷ [];
  suggestion =
      lit "Agents "
      ∷ plain (join ", " members)
      ∷ lit
          " form a delegation cycle. Without a depth/budget guard this risks infinite delegation. Consider an `orchestrator` pattern (top-level agent makes all transfer decisions) or explicit `max_handoffs`."
      ∷ [];
  confidence = 75;
  confidence_reason = exact_static_match;
}

-- The switch of `report`.
unfoldable pub cycle_finding : String → CycleInfo → Finding
unfolding self_finding pair_finding circle_finding
cycle_finding id i = if i.is_self then self_finding id else elim i.members [
  | a ∷ b ∷ [] ↦ pair_finding id a b i.path
  | _ ↦ circle_finding id i.members i.path
]

-- The key that a cycle is reported under once.
unfoldable pub cycle_key : String → CycleInfo → String
unfolding join
cycle_key start i = if i.is_self then "SELF::" +++ start else join "|" i.members

unfoldable pub report : Reports → String → CycleInfo → Reports
unfolding cycle_finding cycle_key
report r start i = if contains r.emitted (cycle_key start i) then r else record {
  emitted = cycle_key start i ∷ r.emitted;
  findings = r.findings ++ cycle_finding start i ∷ [];
}

abbrev pub found_info : List String → String → List String → CycleInfo
found_info agents src path = record {
  members = sort str_ltb (members_from agents [] path);
  path = path ++ src ∷ [];
  is_self = false;
}

abbrev pub self_info : String → CycleInfo
self_info src = record { members = src ∷ []; path = src ∷ src ∷ []; is_self = true }

-- A path that the search found, reported.
unfoldable pub report_found : List String → String → Reports → Option (List String) → Reports
unfolding report
report_found agents src r none = r
report_found agents src r (some path) = report r src (found_info agents src path)

-- The first half of the loop's body: an edge from the agent to itself.
unfoldable pub check_self : WorkflowGraph → Reports → String → Reports
unfolding report
check_self g r src =
    if any (λ e. e.to == src) (outgoing_edges g src) then report r src (self_info src) else r

-- The body of the loop over the sources.
unfoldable pub check_source : WorkflowGraph → List String → Reports → Node → Reports
unfolding check_self report_found dfs
check_source g agents r src =
    report_found agents src.id (check_self g r src.id)
      (dfs (suc (length g.nodes)) g agents src.id src.id (src.id ∷ []) (src.id ∷ []))

unfoldable pub run_circular_dep_agents_dfs : WorkflowGraph → List Node → List Finding
unfolding check_source
run_circular_dep_agents_dfs g agents =
    (foldl (check_source g (map (λ n. n.id) agents)) (record { emitted = []; findings = [] })
      agents).findings

abbrev pub no_nodes : List Node → Bool
no_nodes [] = true
no_nodes (_ ∷ _) = false

unfoldable pub propagate : PathContext → List Finding
unfolding run_circular_dep_agents_dfs
propagate c = if no_nodes c.sources then [] else run_circular_dep_agents_dfs c.graph c.sources

unfoldable pub path_rule : PathRule
unfolding meta sources sinks propagate
path_rule = record { meta = meta; sources = sources; sinks = sinks; propagate = propagate }

unfoldable pub analyze : Option WorkflowGraph → List Finding
unfolding run_circular_dep_agents_dfs sources
analyze none = []
analyze (some g) =
    if is_empty g.nodes
    then []
    else if no_nodes (sources g)
    then []
    else run_circular_dep_agents_dfs g (sources g)
