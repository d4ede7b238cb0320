-- ===== src/Cli/Analyze/Laws.antt =====
-- How a run ends, and that a run over a baseline of its own findings reports nothing.
use shingan.Prelude.{
  String, true, false, ◌==◌, ◌≡◌, ◌≢◌, refl, ◌⊎◌, inl, inr, Option, none, some, List, [], ◌∷◌,
  str_cases, Option-cases, Bool-cases,
}
use shingan.Domain.Finding.{Finding}
use shingan.Domain.Baseline.{Baseline, new_baseline_from_findings}
use shingan.Application.Policy.{Policy}
use shingan.Plugin.Sdk.{verify_sdk_compatibility}
use shingan.Cli.Format.{resolve_input_format, resolve_output_format}
use shingan.Cli.Changed.{changed_files}
use shingan.Cli.Load.{load_as_multi}
use shingan.Cli.Filters.{exit_code, filter_new}
use shingan.Cli.Analyze.{
  AnalyzeFlags, Shell, Outcome, failure, emit_findings, save_and_emit, compare_and_save,
  load_and_analyze, resolve_since, check_policy, execute_analyze, filtered,
}

-- The run wrote a report on these findings, and their baseline if one was asked for.
pub record IsReport (w : Shell) (flags : AnalyzeFlags) (o : Outcome) (fs : List Finding)
    : Type 0 where
  pub reported : o.reported ≡ some fs
  pub code : o.code ≡ exit_code fs
  pub succeeded : o.failed ≡ false
  pub saved :
      (flags.save_baseline ≡ "") × (o.saved ≡ none)
      ⊎ (o.saved ≡ some (flags.save_baseline, new_baseline_from_findings w.digest w.now fs))

-- A run with an error, which returns 1 and reports nothing.
pub record IsFailure (o : Outcome) : Type 0 where
  pub code : o.code ≡ 1
  pub failed : o.failed ≡ true
  pub unreported : o.reported ≡ none

abbrev pub Ends : Shell → AnalyzeFlags → Outcome → Type 0
Ends w flags o = IsFailure o ⊎ ((fs : List Finding) × IsReport w flags o fs)

failed : IsFailure failure
failed = record { code = refl; failed = refl; unreported = refl }

module _ (w : Shell) (flags : AnalyzeFlags) where
  emit-Ends :
      (output : String) (saved : Option (String × Baseline)) (fs : List Finding)
      → (flags.save_baseline ≡ "") × (saved ≡ none)
        ⊎ (saved ≡ some (flags.save_baseline, new_baseline_from_findings w.digest w.now fs))
      → Ends w flags (emit_findings w flags output saved fs)
  unfolding emit_findings
  emit-Ends output saved fs h = elim (Bool-cases (w.writes_report output flags.output_file fs)) [
    | inl t ↦ rw t (inr (fs, record { reported = refl; code = refl; succeeded = refl; saved = h }))
    | inr f ↦ rw f (inl (record { code = refl; failed = refl; unreported = refl }))
  ]

  save-Ends : (output : String) (fs : List Finding) → Ends w flags (save_and_emit w flags output fs)
  unfolding save_and_emit
  save-Ends output fs =
      let b = new_baseline_from_findings w.digest w.now fs in
      elim (str_cases flags.save_baseline "") [
        | inl (e, t) ↦ rw t (emit-Ends output none fs (inl (e, refl)))
        | inr (d, f) ↦ elim (Bool-cases (w.saves_baseline flags.save_baseline b)) [
          | inl t ↦ rw (f, t) (emit-Ends output (some (flags.save_baseline, b)) fs (inr refl))
          | inr n ↦ rw (f, n) (inl failed)
        ]
      ]

  compare-Ends :
      (output : String) (fs : List Finding) → Ends w flags (compare_and_save w flags output fs)
  unfolding compare_and_save
  compare-Ends output fs = elim (Bool-cases (flags.baseline == "")) [
    | inl t ↦ rw t (save-Ends output fs)
    | inr f ↦ elim (Option-cases (w.load_baseline flags.baseline)) [
      | inl e ↦ rw (f, e) (inl failed)
      | inr (b, e) ↦ rw (f, e) (save-Ends output (filter_new w.digest fs b))
    ]
  ]

  load-Ends :
      (format output : String) (policy : Option Policy) (changed : Option (List String))
      → Ends w flags (load_and_analyze w flags format output policy changed)
  unfolding load_and_analyze
  load-Ends format output policy changed =
      elim (Bool-cases (w.creates_parser format flags.workers)) [
        | inr f ↦ rw f (inl failed)
        | inl t ↦ elim (Option-cases (load_as_multi (w.files format) flags.input format none)) [
          | inl e ↦ rw (t, e) (inl failed)
          | inr (inputs, e) ↦
              rw (t, e) (compare-Ends output (filtered w flags policy changed inputs))
        ]
      ]

  since-Ends :
      (format output : String) (policy : Option Policy)
      → Ends w flags (resolve_since w flags format output policy)
  unfolding resolve_since
  since-Ends format output policy = elim (Bool-cases (flags.since == "")) [
    | inl t ↦ rw t (load-Ends format output policy none)
    | inr f ↦ elim (Option-cases (changed_files w.paths flags.since flags.input)) [
      | inl e ↦ rw (f, e) (inl failed)
      | inr ([], e) ↦ rw (f, e) (save-Ends output [])
      | inr (c ∷ cs, e) ↦ rw (f, e) (load-Ends format output policy (some (c ∷ cs)))
    ]
  ]

-- A run returns 3, and reports and saves nothing, only if a plugin's SDK version is refused. Else it
-- fails with 1 and no report, or it reports, returns the exit code of the report, and saves the
-- baseline of just that report if one was asked for.
pub execute-Ends :
    (w : Shell) (flags : AnalyzeFlags)
    → ((verify_sdk_compatibility w.build w.registry ≢ none)
        × (execute_analyze w flags
            ≡ record { code = 3; failed = false; saved = none; reported = none }))
      ⊎ Ends w flags (execute_analyze w flags)
unfolding execute_analyze
execute-Ends w flags =
    elim (Option-cases (resolve_input_format flags.format (w.sniff flags.input))) [
      | inl e ↦ rw (e, execute_analyze) (inr (inl failed))
      | inr (format, e) ↦ elim (Option-cases (verify_sdk_compatibility w.build w.registry)) [
        | inr (faults, s) ↦ rw (e, execute_analyze) (rw s (inl (λ h. cc h, refl)))
        | inl s ↦ elim (Option-cases (check_policy w flags)) [
          | inl p ↦ rw (e, execute_analyze) (rw (s, p) (inr (inl failed)))
          | inr (policy, p) ↦
              rw (e, execute_analyze)
                (rw (s, p)
                  (inr (
                    since-Ends w flags format
                      (resolve_output_format flags.output flags.output_file w.is_terminal) policy)))
        ]
      ]
    ]
