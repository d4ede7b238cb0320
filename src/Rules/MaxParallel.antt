-- ===== src/Rules/MaxParallel.antt =====
-- domain/rules/max_parallel_branches.go: nodes with many outgoing edges.
pub mod Laws
mod Tests
use shingan.Prelude.{
  ℕ, String, Bool, true, false, ◌||◌, Option, none, some, List, [], ◌∷◌, Dict, lookup, is_empty,
  is_some, length, leb, if◌then◌else◌,
}
use shingan.Prelude.Int.{pos}
use shingan.Domain.Finding.{
  Finding, Severity, critical, warning, info, empty_finding, lit, quoted, number,
  exact_static_match,
}
use shingan.Domain.Graph.{Node, WorkflowGraph, outgoing_edges}

-- The node sets max_concurrency, in either place and to whatever value.
unfoldable pub opts_out : Node → Bool
unfolding lookup
opts_out n = is_some n.max_concurrency || is_some (lookup "max_concurrency" n.config)

-- The severity of a fan-out of at least 10.
unfoldable pub grade : ℕ → Severity
grade fanout = if leb 100 fanout then critical else if leb 20 fanout then warning else info

unfoldable pub grade_confidence : ℕ → ℕ
grade_confidence fanout = if leb 100 fanout then 100 else if leb 20 fanout then 90 else 70

unfoldable pub fanout_finding : String → ℕ → Finding
unfolding grade grade_confidence
fanout_finding id fanout = record empty_finding {
  rule_name = "max_parallel_branches";
  severity = grade fanout;
  node_id = id;
  message =
      lit "node "
      ∷ quoted id
      ∷ lit " has "
      ∷ number (pos fanout)
      ∷ lit " outgoing edges (fan-out), may exceed concurrency limits or cause API rate limit"
      ∷ [];
  suggestion =
      lit
        "Chunk sub-agents into groups of 10 or set Config[\"max_concurrency\"] to limit parallel execution"
      ∷ [];
  confidence = grade_confidence fanout;
  confidence_reason = exact_static_match;
}

unfoldable pub check_fanouts : WorkflowGraph → Dict Node → List Finding
unfolding opts_out fanout_finding
check_fanouts g [] = []
check_fanouts g ((id, n) ∷ rest) =
    let later = check_fanouts g rest in
    let fanout = length (outgoing_edges g id) in
    if opts_out n then later else if leb 10 fanout then fanout_finding id fanout ∷ later else later

unfoldable pub analyze : Option WorkflowGraph → List Finding
unfolding check_fanouts
analyze none = []
analyze (some g) = if is_empty g.nodes then [] else check_fanouts g g.nodes
