-- ===== src/Rules/RetryStorm/Tests.antt =====
-- The rule on a tool with five retries below a parallel caller, and each theorem at a workflow.
use mathlib.Core.List.Memᴰ
use shingan.Prelude.{
  false, ℕ, ◌*◌, ◌<◌, ◌^◌, String, ◌≡◌, refl, sym, ◌∙◌, ap, subst, ◌↔◌, some, none, Option, [], ◌∷◌,
  map, Memᴰ, arith, some_inj,
}
use shingan.Prelude.Int.{pos}
use shingan.Domain.NodeType.{llm, tool, loop}
use shingan.Domain.Value.{int}
use shingan.Domain.Finding.{info, heuristic_pattern, critical, Finding}
use shingan.Domain.Graph.{Node, WorkflowGraph}
use shingan.Rules.RetryStorm.{
  storm_finding, retry_count, estimate_parallelism, check_source, analyze,
}
use shingan.Rules.RetryStorm.Spec.{IsMax, Signal, IsStorm}
use shingan.Rules.RetryStorm.Estimate.{estimate-IsMax}
use shingan.Rules.RetryStorm.Report.{Fits, analyze-IsStorm, check_source-none}
use shingan.Samples.{bare_node, edge}

-- The tool retries five times; the loop that calls it runs 20 rounds, and the node `p` starts four
-- calls at a time.
abbrev retrying : Node
retrying = record (bare_node "t" tool) { config = ("max_retries", int (pos 5)) ∷ [] }

abbrev stormy : WorkflowGraph
stormy = record {
  nodes =
      ("l", record (bare_node "l" loop) { max_iterations = some (pos 20) })
      ∷ ("p", record (bare_node "p" llm) { max_concurrency = some (pos 4) })
      ∷ ("t", retrying)
      ∷ [];
  edges = edge "l" "t" ∷ edge "p" "t" ∷ [];
  entry_node_id = "l";
  entry_ambiguous = false;
}

estimate-stormy : estimate_parallelism stormy retrying ≡ 20
unfolding estimate_parallelism shingan.Prelude.lookup
estimate-stormy = refl

analyze-stormy : map (λ f. f.severity) (analyze (some stormy)) ≡ critical ∷ []
unfolding analyze shingan.Prelude.collect shingan.Prelude.select shingan.Prelude.lookup
analyze-stormy = refl

-- 2 ^ 40 retries under a concurrency of 2 ^ 23: the product is 2 ^ 63.
abbrev huge : Node
huge = record (bare_node "t" tool) {
  config = ("retries", int (pos (2 ^ 40))) ∷ [];
  max_concurrency = some (pos (2 ^ 23));
}

abbrev overflowing : WorkflowGraph
overflowing = record {
  nodes = ("t", huge) ∷ [];
  edges = [];
  entry_node_id = "t";
  entry_ambiguous = false;
}

count-huge : retry_count huge ≡ some (2 ^ 40, "retries")
unfolding retry_count shingan.Prelude.lookup
count-huge = refl

estimate-huge : estimate_parallelism overflowing huge ≡ 2 ^ 23
unfolding estimate_parallelism
estimate-huge = refl

estimate-IsMax_example : IsMax 1 (Signal stormy retrying) (estimate_parallelism stormy retrying)
estimate-IsMax_example = estimate-IsMax stormy retrying

check_source-none_example : check_source overflowing huge ≡ none
check_source-none_example =
    check_source-none overflowing huge (2 ^ 40) "retries" count-huge
      (rw estimate-huge (omega arith)) (rw estimate-huge (omega arith))

-- The tool alone, with four calls at a time.
abbrev lone_tool : Node
lone_tool = record retrying { max_concurrency = some (pos 4) }

abbrev lone : WorkflowGraph
lone = record overflowing { nodes = ("t", lone_tool) ∷ [] }

count-lone : retry_count lone_tool ≡ some (5, "max_retries")
unfolding retry_count shingan.Prelude.lookup
count-lone = refl

estimate-lone : estimate_parallelism lone lone_tool ≡ 4
unfolding estimate_parallelism
estimate-lone = refl

lone-Fits : Fits lone lone_tool
lone-Fits retries key counted =
    let same = ap (λ (x : ℕ × String). x.0) (some_inj (sym count-lone ∙ counted)) in
    rw estimate-lone (omega (arith, same))

abbrev storm : Finding
storm =
    storm_finding "t" "max_retries" 5 4 (pos 20)
      (record { severity = info; confidence = 50; reason = heuristic_pattern })

analyze-IsStorm_example : Memᴰ storm (analyze (some lone)) ↔ ((n : Node) × IsStorm lone storm n)
analyze-IsStorm_example =
    analyze-IsStorm lone storm
      (λ n at. subst (λ (x : Node). Fits lone x) (sym (Memᴰ.eq_of_singleton at)) lone-Fits)
