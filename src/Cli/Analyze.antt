-- ===== src/Cli/Analyze.antt =====
-- cli/analyze.go, executeAnalyze: what one run of the command reports, saves and returns. The files,
-- git, the parsers and the reporters are what a shell answers.
pub mod Laws
pub mod Later
pub mod Ratchet
use shingan.Prelude.{
  ℕ, String, Bool, true, false, ◌==◌, Option, none, some, List, [], ◌∷◌, ◌++◌, map, ltb,
  if◌then◌else◌,
}
use shingan.Prelude.Int.{ℤ}
use shingan.Domain.Finding.{Finding, Message}
use shingan.Domain.Baseline.{Baseline, new_baseline_from_findings}
use shingan.Domain.Context.{AnalysisRule}
use shingan.Plugin.{Build, Registry, Registered, registered_rules, rules}
use shingan.Plugin.Sdk.{verify_sdk_compatibility}
use shingan.Application.Orchestrator.{Scheduler}
use shingan.Application.Policy.{Policy}
use shingan.Application.Policy.Plugins.{verify_required_plugins}
use shingan.Application.Multi.{GraphWithSource, analyze_multi}
use shingan.Cli.Format.{Input, resolve_input_format, resolve_output_format}
use shingan.Cli.Changed.{Paths, changed_files}
use shingan.Cli.Load.{Files, load_as_multi}
use shingan.Cli.Filters.{filter_by_confidence, exit_code, filter_new, filter_by_changed_files_multi}

-- A confidence counts hundredths.
pub record AnalyzeFlags : Type 0 where
  pub input : String
  pub format : String
  pub output : String
  pub output_file : String
  pub min_confidence : ℕ
  pub since : String
  pub baseline : String
  pub save_baseline : String
  pub policy : String
  pub workers : ℤ

-- What one run of the command finds around it; `none` and `false` are errors. Two runs have two shells,
-- whose clock and scheduler differ.
pub record Shell : Type 0 where
  pub build : Build
  pub registry : Registry
  pub built_in : List AnalysisRule
  pub scheduler : Scheduler
  pub paths : Paths
  pub now : ℕ
  pub is_terminal : Bool
  pub sniff : String → Input
  pub discover_policy : String
  pub load_policy : String → Option (Option Policy)
  -- Whether there is a parser for a format, and the file system as it reads it.
  pub creates_parser : String → ℤ → Bool
  pub files : String → Files
  pub marker : String → Option (String × String)
  pub open_lines : String → Option (List String)
  pub glob : String → String → Bool
  pub digest : Message → String
  pub load_baseline : String → Option (Option Baseline)
  pub saves_baseline : String → Baseline → Bool
  -- The reporter for a format, on the findings and into a file.
  pub writes_report : String → String → List Finding → Bool

-- The exit code, whether there is an error, the baseline that was written, and the report.
pub record Outcome : Type 0 where
  pub code : ℕ
  pub failed : Bool
  pub saved : Option (String × Baseline)
  pub reported : Option (List Finding)

abbrev pub failure : Outcome
failure = record { code = 1; failed = true; saved = none; reported = none }

module _ (w : Shell) (flags : AnalyzeFlags) where
  unfoldable pub emit_findings : String → Option (String × Baseline) → List Finding → Outcome
  unfolding exit_code
  emit_findings output saved findings =
      if w.writes_report output flags.output_file findings
      then record {
        code = exit_code findings;
        failed = false;
        saved = saved;
        reported = some findings;
      }
      else record failure { saved = saved }

  -- Step 4d, and the report.
  unfoldable pub save_and_emit : String → List Finding → Outcome
  unfolding emit_findings new_baseline_from_findings
  save_and_emit output findings =
      let b = new_baseline_from_findings w.digest w.now findings in
      if flags.save_baseline == ""
      then emit_findings output none findings
      else if w.saves_baseline flags.save_baseline b
      then emit_findings output (some (flags.save_baseline, b)) findings
      else failure

  -- Step 4c.
  unfoldable pub compare_and_save : String → List Finding → Outcome
  unfolding save_and_emit filter_new
  compare_and_save output findings =
      if flags.baseline == ""
      then save_and_emit output findings
      else elim (w.load_baseline flags.baseline) [
        | none ↦ failure
        | some b ↦ save_and_emit output (filter_new w.digest findings b)
      ]

  unfoldable pub at_least : List Finding → List Finding
  unfolding filter_by_confidence
  at_least findings =
      if ltb 0 flags.min_confidence
      then filter_by_confidence findings flags.min_confidence
      else findings

  -- The repository's root, "" if there is none.
  abbrev root : String
  root = elim w.paths.top_level [ none ↦ "" | some r ↦ r ]

  abbrev pub all_findings : Option Policy → List GraphWithSource → List Finding
  all_findings policy inputs =
      analyze_multi w.scheduler w.marker w.open_lines w.glob policy inputs
        (w.built_in ++ rules w.registry)

  -- Steps 4, 4a and 4b.
  unfoldable pub filtered :
      Option Policy → Option (List String) → List GraphWithSource → List Finding
  unfolding analyze_multi rules filter_by_changed_files_multi at_least
  filtered policy none inputs = at_least (all_findings policy inputs)
  filtered policy (some changed) inputs =
      at_least
        (filter_by_changed_files_multi w.paths (all_findings policy inputs) inputs changed root)

  -- From step 2 on.
  unfoldable pub load_and_analyze : String → String → Option Policy → Option (List String) → Outcome
  unfolding filtered compare_and_save load_as_multi
  load_and_analyze format output policy changed =
      if w.creates_parser format flags.workers
      then (elim (load_as_multi (w.files format) flags.input format none) [
        | none ↦ failure
        | some inputs ↦ compare_and_save output (filtered policy changed inputs)
      ])
      else failure

  -- Step 1: without a change there is an empty report, and nothing is parsed.
  unfoldable pub resolve_since : String → String → Option Policy → Outcome
  unfolding changed_files load_and_analyze save_and_emit
  resolve_since format output policy =
      if flags.since == ""
      then load_and_analyze format output policy none
      else elim (changed_files w.paths flags.since flags.input) [
        | none ↦ failure
        | some [] ↦ save_and_emit output []
        | some (c ∷ cs) ↦ load_and_analyze format output policy (some (c ∷ cs))
      ]

  abbrev plugin_names : List String
  plugin_names = map (λ (r : Registered). r.rule.name) (registered_rules w.registry)

  abbrev policy_path : String
  policy_path = if flags.policy == "" then w.discover_policy else flags.policy

  -- Step 0: `none` is an error.
  unfoldable pub check_policy : Option (Option Policy)
  unfolding verify_required_plugins registered_rules
  check_policy = if policy_path == "" then some none else elim (w.load_policy policy_path) [
    | none ↦ none
    | some none ↦ some none
    | some (some p) ↦ elim (verify_required_plugins (some p) plugin_names) [
      | none ↦ some (some p)
      | some _ ↦ none
    ]
  ]

  unfoldable pub execute_analyze : Outcome
  unfolding resolve_input_format resolve_output_format verify_sdk_compatibility check_policy
      resolve_since
  execute_analyze = elim (resolve_input_format flags.format (w.sniff flags.input)) [
    | none ↦ failure
    | some format ↦ elim (verify_sdk_compatibility w.build w.registry) [
      | some _ ↦ record { code = 3; failed = false; saved = none; reported = none }
      | none ↦ elim check_policy [
        | none ↦ failure
        | some policy ↦
            resolve_since format
              (resolve_output_format flags.output flags.output_file w.is_terminal) policy
      ]
    ]
  ]
