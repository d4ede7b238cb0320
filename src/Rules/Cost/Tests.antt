-- ===== src/Rules/Cost/Tests.antt =====
-- An expensive model before a loop, in a loop that the search misses, and in a loop.
use shingan.Prelude.{String, ◌≡◌, refl, some, List, [], ◌∷◌, map, Memᴰ, values, false}
use shingan.Domain.NodeType.{llm}
use shingan.Domain.Config.{get_model_name}
use shingan.Domain.Finding.{Finding, warning}
use shingan.Domain.Graph.{Node, Edge, WorkflowGraph}
use shingan.Rules.Cost.{high, tier_for, loop_finding, analyze}
use shingan.Rules.Cost.Walks.{LeadsToCycle}
use shingan.Rules.Cost.Report.{warning-LeadsToCycle}
use shingan.Samples.{bare_node, edge}

abbrev costly : String → String × Node
costly id = (id, record (bare_node id llm) { model_name = "gpt-4o" })

abbrev over : List Edge → WorkflowGraph
over edges = record {
  nodes = costly "a" ∷ costly "b" ∷ costly "c" ∷ [];
  edges = edges;
  entry_node_id = "a";
  entry_ambiguous = false;
}

-- `a` leads into the loop of `b` and `c`, and is on no cycle, but is counted.
abbrev before : WorkflowGraph
before = over (edge "a" "b" ∷ edge "b" "c" ∷ edge "c" "b" ∷ [])

analyze-before : map (λ (f : Finding). f.node_id) (analyze (some before)) ≡ "a" ∷ "b" ∷ "c" ∷ []
unfolding analyze
analyze-before = refl

-- `c` lies on the cycle over `b` and `a`, but is not counted, since `b` is completed before it.
abbrev shared : WorkflowGraph
shared = over (edge "a" "b" ∷ edge "b" "a" ∷ edge "a" "c" ∷ edge "c" "b" ∷ [])

analyze-shared : map (λ (f : Finding). f.node_id) (analyze (some shared)) ≡ "a" ∷ "b" ∷ []
unfolding analyze shingan.Domain.Config.config_string
analyze-shared = refl

loop_reported : Memᴰ (loop_finding "b" "gpt-4o") (analyze (some before))
unfolding analyze
loop_reported = Memᴰ.tail (Memᴰ.head refl)

loop_warning : (loop_finding "b" "gpt-4o").severity ≡ warning
unfolding loop_finding
loop_warning = refl

warning-LeadsToCycle_example :
    (n : Node) × Memᴰ n (values before.nodes)
    × (n.type ≡ llm)
    × ((loop_finding "b" "gpt-4o").node_id ≡ n.id)
    × (tier_for (get_model_name n) ≡ high)
    × LeadsToCycle before n.id
warning-LeadsToCycle_example =
    warning-LeadsToCycle before (loop_finding "b" "gpt-4o") loop_reported loop_warning
