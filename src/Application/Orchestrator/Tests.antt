-- ===== src/Application/Orchestrator/Tests.antt =====
-- Two rules on a sample workflow, under two schedules, and each theorem at them.
use mathlib.Core.List.{Permᴰ, flatten}
use shingan.Prelude.{
  ◌≡◌, refl, none, some, false, List, [], ◌∷◌, map, lookup, insert, select, contains,
}
use shingan.Prelude.Sort.{IsSorted, sort}
use shingan.Domain.Finding.{warning}
use shingan.Domain.Config.{get_max_iterations}
use shingan.Domain.Context.{AnalysisRule, drain, report, new_rule_context}
use shingan.Domain.Graph.{outgoing_edges}
use shingan.Application.Orchestrator.{
  walk_globals, walk_paths, finding_less, normalize, message_template_ids, analyze,
}
use shingan.Application.Orchestrator.Laws.{each_findings, analyze-perm, analyze-IsSorted}
use shingan.Application.Walker.{walk, begin, on_node, on_edge, on_graph}
use shingan.Application.PathWalker.{run_path_rule}
use shingan.Rules.LoopGuard
use shingan.Rules.Reachability
use shingan.Samples.{in_order, swapped, looping}

abbrev rules : List AnalysisRule
rules =
    record {
      name = "loop_guard";
      analyze = LoopGuard.analyze;
      as_global = none;
      as_path = none;
      as_local = some LoopGuard.local_rule;
      sdk_version = none;
      message_template = none;
    }
    ∷ record {
      name = "unreachable_node";
      analyze = Reachability.analyze;
      as_global = some (record {
        meta = record { name = "unreachable_node"; severity = warning; fixable = false };
        analyze_global = Reachability.analyze;
      });
      as_path = none;
      as_local = none;
      sdk_version = none;
      message_template = some "unreachable";
    }
    ∷ []

-- The loop without a bound is critical and comes before the unreachable node.
analyze-rules : map (λ f. f.node_id) (analyze in_order (some looping) rules) ≡ "l" ∷ "x" ∷ []
unfolding analyze flatten sort walk_globals walk_paths run_path_rule walk begin on_node on_edge
    on_graph LoopGuard.handle Reachability.analyze outgoing_edges contains lookup insert select
    Reachability.ai_reverse drain LoopGuard.local_rule get_max_iterations report new_rule_context
    Reachability.severity_for
analyze-rules = refl

analyze-perm_example :
    Permᴰ
      (analyze swapped (some looping) rules)
      (map (normalize (message_template_ids rules)) (each_findings (some looping) rules))
analyze-perm_example = analyze-perm swapped (some looping) rules

analyze-IsSorted_example : IsSorted finding_less (analyze swapped (some looping) rules)
analyze-IsSorted_example = analyze-IsSorted swapped (some looping) rules
