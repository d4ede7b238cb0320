-- ===== src/Cli/Tests.antt =====
-- Runs of the command over one file, and each theorem at them.
use Prim.Native.String.{◌++◌ as ◌+++◌}
use mathlib.Core.List.Permᴰ
use mathlib.Core.List.Memᴰ
use shingan.Prelude.{
  ℕ, String, Bool, true, false, ◌==◌, ◌≡◌, ◌≢◌, refl, ◌⊎◌, Option, none, some, List, [], ◌∷◌, ◌++◌,
  starts_with, ne_of_test, Dict, IsMap, inl, inr, Memᴰ, if◌then◌else◌,
}
use shingan.Prelude.Int.{pos}
use shingan.Domain.Finding.{Finding, Message, empty_finding, warning}
use shingan.Domain.Context.{AnalysisRule}
use shingan.Domain.Baseline.{Baseline, new_baseline_from_findings}
use shingan.Plugin.{reset}
use shingan.Plugin.Sdk.{verify_sdk_compatibility}
use shingan.Application.Orchestrator.{Scheduler}
use shingan.Application.Multi.{GraphWithSource, analyze_multi}
use shingan.Rules.LoopGuard
use shingan.Samples.{in_order, swapped, looping}
use shingan.Cli.Format.{most_common, file}
use shingan.Cli.Format.Laws.{most_common-perm}
use shingan.Cli.Load.{Files, graph}
use shingan.Cli.Changed.{Paths}
use shingan.Cli.Filters.{exit_code}
use shingan.Cli.Filters.Laws.{IsWorst, exit_code-IsWorst}
use shingan.Cli.Analyze.{AnalyzeFlags, Shell, execute_analyze}
use shingan.Cli.Analyze.Laws.{Ends, execute-Ends}
use shingan.Cli.Analyze.Later.{saving, comparing, later_run}
use shingan.Cli.Analyze.Ratchet.{silent, second_run-silent}

abbrev loop_guard : AnalysisRule
loop_guard = record {
  name = "loop_guard";
  analyze = LoopGuard.analyze;
  as_global = none;
  as_path = none;
  as_local = some LoopGuard.local_rule;
  sdk_version = none;
  message_template = none;
}

abbrev same_digest : Message → String
same_digest m = "digest"

abbrev inputs : List GraphWithSource
inputs = record { graph = some looping; source_file = "looping.json" } ∷ []

abbrev at_root : Paths
at_root = record {
  top_level = some "/repo";
  diff_names = λ since. some "looping.json";
  clean = λ path. path;
  is_abs = λ path. starts_with path "/";
  abs = λ path. some ("/repo/" +++ path);
  rel = λ base path. some path;
}

abbrev one_file : Files
one_file = record {
  stat = λ path. some false;
  walk = λ path. none;
  clean = λ path. path;
  parse = λ path. graph looping;
  parse_many = none;
}

abbrev found : List Finding
found = analyze_multi in_order (λ t. none) (λ p. none) (λ p q. p == q) none inputs (loop_guard ∷ [])

abbrev known : Baseline
known = new_baseline_from_findings same_digest 7 found

abbrev shell : Shell
shell = record {
  build = record { is_valid = λ v. true; compare = λ v w. pos 0; version = "0.9.0" };
  registry = reset;
  built_in = loop_guard ∷ [];
  scheduler = in_order;
  paths = at_root;
  now = 7;
  is_terminal = false;
  sniff = λ path. file (record { ext = ".json"; head = "{}" });
  discover_policy = "";
  load_policy = λ path. none;
  creates_parser = λ format workers. true;
  files = λ format. one_file;
  marker = λ t. none;
  open_lines = λ p. none;
  glob = λ p q. p == q;
  digest = same_digest;
  load_baseline = λ path. if path == "known.json" then some (some known) else none;
  saves_baseline = λ path b. true;
  writes_report = λ output path fs. true;
}

abbrev flags : AnalyzeFlags
flags = record {
  input = "looping.json";
  format = "";
  output = "";
  output_file = "";
  min_confidence = 0;
  since = "";
  baseline = "";
  save_baseline = "";
  policy = "";
  workers = pos 0;
}

execute-flags :
    execute_analyze shell flags
    ≡ record { code = 2; failed = false; saved = none; reported = some found }
unfolding execute_analyze reset shingan.Prelude.Sort.sort shingan.Application.Policy.apply_policy
    shingan.Application.Ignore.filter_ignored_findings shingan.Application.Orchestrator.analyze
    mathlib.Core.List.flatten shingan.Application.Walker.walk shingan.Domain.Context.drain
    LoopGuard.local_rule shingan.Domain.Config.get_max_iterations shingan.Domain.Context.report
    shingan.Domain.Context.new_rule_context
execute-flags = refl

execute-saving :
    (execute_analyze shell (saving flags "known.json")).saved ≡ some ("known.json", known)
unfolding execute_analyze reset
execute-saving = refl

-- An hour later, with the first two batches of findings swapped.
second_run-silent_example :
    execute_analyze (later_run shell swapped 3600) (comparing flags "known.json") ≡ silent
second_run-silent_example =
    second_run-silent shell swapped 3600 flags "known.json" (ne_of_test "known.json" "" refl) known
      refl (λ output. refl) execute-saving

execute-Ends_example :
    ((verify_sdk_compatibility shell.build shell.registry ≢ none)
      × (execute_analyze shell flags
          ≡ record { code = 3; failed = false; saved = none; reported = none }))
    ⊎ Ends shell flags (execute_analyze shell flags)
execute-Ends_example = execute-Ends shell flags

abbrev warned : List Finding
warned = empty_finding ∷ record empty_finding { severity = warning } ∷ []

exit_code-IsWorst_example : IsWorst 0 warned (exit_code warned)
exit_code-IsWorst_example = exit_code-IsWorst warned

abbrev counts : Dict ℕ
counts = ("json", 9) ∷ ("langgraph", 2) ∷ ("crewai", 2) ∷ []

abbrev other_order : Dict ℕ
other_order = ("json", 9) ∷ ("crewai", 2) ∷ ("langgraph", 2) ∷ []

counts-IsMap : IsMap counts
counts-IsMap = (
  λ m. elim (Memᴰ.cases_cons m) [
    | inl e ↦ ne_of_test "json" "langgraph" refl e
    | inr n ↦ ne_of_test "json" "crewai" refl (Memᴰ.eq_of_singleton n)
  ],
  (λ m. ne_of_test "langgraph" "crewai" refl (Memᴰ.eq_of_singleton m), (λ m. Memᴰ.not-nil m, tt)),
)

other_order-IsMap : IsMap other_order
other_order-IsMap = (
  λ m. elim (Memᴰ.cases_cons m) [
    | inl e ↦ ne_of_test "json" "crewai" refl e
    | inr n ↦ ne_of_test "json" "langgraph" refl (Memᴰ.eq_of_singleton n)
  ],
  (λ m. ne_of_test "crewai" "langgraph" refl (Memᴰ.eq_of_singleton m), (λ m. Memᴰ.not-nil m, tt)),
)

most_common-counts : most_common counts ≡ "crewai"
unfolding most_common
most_common-counts = refl

most_common-perm_example : most_common counts ≡ most_common other_order
most_common-perm_example =
    most_common-perm counts other_order counts-IsMap other_order-IsMap
      (Permᴰ.cons refl (Permᴰ.swap refl refl))
