-- ===== src/Application/Multi/Tests.antt =====
-- Two files, one of them analysed under a policy, and each theorem at them.
use mathlib.Core.List.{flatten}
use shingan.Prelude.{
  String, Bool, false, ◌==◌, ◌≡◌, refl, Option, some, none, List, [], ◌∷◌, map, Memᴰ, lookup,
  insert,
}
use shingan.Prelude.Sort.{sort}
use shingan.Domain.Finding.{Finding, Severity, empty_finding}
use shingan.Domain.Config.{get_max_iterations}
use shingan.Domain.Context.{AnalysisRule, drain, new_rule_context, report}
use shingan.Application.Orchestrator.{analyze}
use shingan.Application.Walker.{walk}
use shingan.Application.Policy.{Policy, apply_policy}
use shingan.Application.Ignore.{filter_ignored_findings}
use shingan.Application.Ignore.Laws.{is_ignored}
use shingan.Application.Multi.{
  GraphWithSource, graphs_by_source, resolve_pos, is_meta_ignored, analyze_inputs, analyze_multi,
}
use shingan.Application.Multi.Laws.{analyze_multi-heeds_ignores}
use shingan.Rules.LoopGuard
use shingan.Samples.{in_order, looping, bounded_loop}

abbrev no_marker : String → Option (String × String)
no_marker text = none

abbrev no_files : String → Option (List String)
no_files path = none

abbrev exact_glob : String → String → Bool
exact_glob pattern path = pattern == path

abbrev inputs : List GraphWithSource
inputs =
    record { graph = some bounded_loop; source_file = "bounded.json" }
    ∷ record { graph = some looping; source_file = "looping.json" }
    ∷ []

abbrev rules : List AnalysisRule
rules =
    record {
      name = "loop_guard";
      analyze = LoopGuard.analyze;
      as_global = none;
      as_path = none;
      as_local = some LoopGuard.local_rule;
      sdk_version = none;
      message_template = none;
    }
    ∷ []

abbrev policy : Policy
policy = record {
  rules = ("loop_guard", record { severity = "warning"; enabled = none }) ∷ [];
  overrides = [];
  plugins = [];
}

abbrev sample_report : List Finding
sample_report = analyze_multi in_order no_marker no_files exact_glob (some policy) inputs rules

report_files : map (λ f. f.source_file) sample_report ≡ "looping.json" ∷ []
unfolding analyze_multi sort apply_policy filter_ignored_findings analyze flatten walk drain
    LoopGuard.local_rule get_max_iterations new_rule_context lookup report insert
report_files = refl

abbrev first : List Finding → Finding
first [] = empty_finding
first (f ∷ _) = f

first_in_report : Memᴰ (first sample_report) sample_report
unfolding analyze_multi sort apply_policy filter_ignored_findings analyze flatten walk drain
    LoopGuard.local_rule get_max_iterations new_rule_context lookup report insert
first_in_report = Memᴰ.head refl

analyze_multi-heeds_ignores_example :
    (given : Finding) × (sev : Severity) × Memᴰ given (analyze_inputs in_order inputs rules)
    × (first sample_report ≡ record given { severity = sev })
    × (is_ignored no_marker no_files (resolve_pos (graphs_by_source inputs)) given ≡ false)
    × (is_meta_ignored (graphs_by_source inputs) given ≡ false)
analyze_multi-heeds_ignores_example =
    analyze_multi-heeds_ignores in_order no_marker no_files exact_glob (some policy) inputs rules
      (first sample_report) first_in_report
