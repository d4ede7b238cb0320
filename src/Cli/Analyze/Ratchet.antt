-- ===== src/Cli/Analyze/Ratchet.antt =====
-- A second run, over the baseline that the first one saved.
use shingan.Prelude.{
  ℕ, String, true, false, ◌==◌, ◌≡◌, ◌≢◌, refl, sym, ◌∙◌, ap, subst, inl, inr, Option, none, some,
  some_inj, List, [], ◌∷◌, str_cases, Option-cases, Bool-cases,
}
use shingan.Domain.Finding.{Finding}
use shingan.Domain.Baseline.{Baseline, new_baseline_from_findings}
use shingan.Application.Orchestrator.{Scheduler}
use shingan.Application.Policy.{Policy}
use shingan.Application.Multi.Schedules.{Within}
use shingan.Plugin.Sdk.{verify_sdk_compatibility}
use shingan.Cli.Format.{resolve_input_format, resolve_output_format}
use shingan.Cli.Changed.{changed_files}
use shingan.Cli.Load.{load_as_multi}
use shingan.Cli.Filters.{exit_code, filter_new}
use shingan.Cli.Analyze.{
  AnalyzeFlags, Shell, Outcome, emit_findings, save_and_emit, compare_and_save, load_and_analyze,
  resolve_since, check_policy, execute_analyze, filtered,
}
use shingan.Cli.Analyze.Later.{saving, comparing, later_run, filter_new-own, filtered-Within}

-- A report of nothing.
abbrev pub silent : Outcome
silent = record { code = 0; failed = false; saved = none; reported = some [] }

module _ (w : Shell) (order : Scheduler) (later : ℕ) (flags : AnalyzeFlags) (path : String)
    (named : path ≢ "") where
  abbrev again : Shell
  again = later_run w order later

  path_set : (path == "") ≡ false
  path_set = elim (str_cases path "") [ inl (e, t) ↦ absurd (named e) | inr (d, f) ↦ f ]

  module _ (b : Baseline) (read : w.load_baseline path ≡ some (some b))
      (writes : (output : String) → w.writes_report output flags.output_file [] ≡ true) where
    emit-silent :
        (output : String) (fs : List Finding)
        → fs ≡ []
        → save_and_emit again (comparing flags path) output fs ≡ silent
    unfolding save_and_emit emit_findings exit_code
    emit-silent output fs e = rw e (rw (writes output) refl)

    saved_own :
        (output : String) (saved : Option (String × Baseline)) (fs : List Finding)
        → (emit_findings w (saving flags path) output saved fs).saved ≡ saved
    unfolding emit_findings
    saved_own output saved fs = elim (Bool-cases (w.writes_report output flags.output_file fs)) [
      | inl t ↦ rw t refl
      | inr f ↦ rw f refl
    ]

    own_of_saved :
        (output : String) (fs : List Finding)
        → (save_and_emit w (saving flags path) output fs).saved ≡ some (path, b)
        → b ≡ new_baseline_from_findings w.digest w.now fs
    unfolding save_and_emit
    own_of_saved output fs h =
        let own = new_baseline_from_findings w.digest w.now fs in
        elim (Bool-cases (w.saves_baseline path own)) [
          | inl t ↦
              let kept : (save_and_emit w (saving flags path) output fs).saved ≡ some (path, own) =
                rw (path_set, save_and_emit) (rw t (saved_own output (some (path, own)) fs)) in
              ap (λ (x : String × Baseline). x.1) (some_inj (sym h ∙ kept))
          | inr f ↦
              let lost : (save_and_emit w (saving flags path) output fs).saved ≡ none =
                rw (path_set, save_and_emit) (rw f refl) in
              cc (h, lost)
        ]

    compare-silent :
        (output : String) (fs gs : List Finding)
        → Within gs fs
        → (compare_and_save w (saving flags path) output fs).saved ≡ some (path, b)
        → compare_and_save again (comparing flags path) output gs ≡ silent
    unfolding compare_and_save
    compare-silent output fs gs within h =
        let nothing : filter_new w.digest gs (some b) ≡ [] =
          subst (λ c. filter_new w.digest gs (some c) ≡ []) (sym (own_of_saved output fs h))
            (filter_new-own w order later flags path fs gs within) in
        rw (path_set, read) (emit-silent output (filter_new w.digest gs (some b)) nothing)

    load-silent :
        (format output : String) (policy : Option Policy) (changed : Option (List String))
        → (load_and_analyze w (saving flags path) format output policy changed).saved
          ≡ some (path, b)
        → load_and_analyze again (comparing flags path) format output policy changed ≡ silent
    unfolding load_and_analyze filtered
    load-silent format output policy changed h =
        elim (Bool-cases (w.creates_parser format flags.workers)) [
          | inr f ↦
              let lost : (load_and_analyze w (saving flags path) format output policy changed).saved
                  ≡ none =
                rw (f, load_and_analyze) refl in
              cc (h, lost)
          | inl t ↦ elim (Option-cases (load_as_multi (w.files format) flags.input format none)) [
            | inl e ↦
                let lost : (load_and_analyze w (saving flags path) format output policy
                      changed).saved
                    ≡ none =
                  rw (t, load_and_analyze) (rw e refl) in
                cc (h, lost)
            | inr (inputs, e) ↦
                let same : load_and_analyze w (saving flags path) format output policy changed
                    ≡ compare_and_save w (saving flags path) output
                        (filtered w (saving flags path) policy changed inputs) =
                  rw (t, load_and_analyze) (rw e refl) in
                rw (t, e)
                  (compare-silent output (filtered w (saving flags path) policy changed inputs)
                    (filtered again (comparing flags path) policy changed inputs)
                    (filtered-Within w order later flags path policy changed inputs)
                    (ap (λ (o : Outcome). o.saved) (sym same) ∙ h))
          ]
        ]

    since-silent :
        (format output : String) (policy : Option Policy)
        → (resolve_since w (saving flags path) format output policy).saved ≡ some (path, b)
        → resolve_since again (comparing flags path) format output policy ≡ silent
    unfolding resolve_since
    since-silent format output policy h = elim (Bool-cases (flags.since == "")) [
      | inl t ↦
          let same : resolve_since w (saving flags path) format output policy
              ≡ load_and_analyze w (saving flags path) format output policy none =
            rw (t, resolve_since) refl in
          rw t
            (load-silent format output policy none (ap (λ (o : Outcome). o.saved) (sym same) ∙ h))
      | inr f ↦ elim (Option-cases (changed_files w.paths flags.since flags.input)) [
        | inl e ↦
            let lost : (resolve_since w (saving flags path) format output policy).saved ≡ none =
              rw (f, resolve_since) (rw e refl) in
            cc (h, lost)
        | inr ([], e) ↦ rw (f, e) (emit-silent output [] refl)
        | inr (c ∷ cs, e) ↦
            let same : resolve_since w (saving flags path) format output policy
                ≡ load_and_analyze w (saving flags path) format output policy (some (c ∷ cs)) =
              rw (f, resolve_since) (rw e refl) in
            rw (f, e)
              (load-silent format output policy (some (c ∷ cs))
                (ap (λ (o : Outcome). o.saved) (sym same) ∙ h))
      ]
    ]

    -- After a run without a baseline has saved one, a later run over that baseline reports nothing and
    -- returns 0, whatever the clock says and in whatever order the goroutines of the two runs end. The
    -- files, the options, the order in which maps are met and what the rules find in a graph are those
    -- of the first run, the baseline is read back, and the empty report can be written.
    pub second_run-silent :
        (execute_analyze w (saving flags path)).saved ≡ some (path, b)
        → execute_analyze again (comparing flags path) ≡ silent
    unfolding execute_analyze check_policy
    second_run-silent h =
        elim (Option-cases (resolve_input_format flags.format (w.sniff flags.input))) [
          | inl e ↦
              let lost : (execute_analyze w (saving flags path)).saved ≡ none =
                rw (e, execute_analyze) refl in
              cc (h, lost)
          | inr (format, e) ↦ elim (Option-cases (verify_sdk_compatibility w.build w.registry)) [
            | inr (faults, s) ↦
                let lost : (execute_analyze w (saving flags path)).saved ≡ none =
                  rw (e, execute_analyze) (rw s refl) in
                cc (h, lost)
            | inl s ↦ elim (Option-cases (check_policy w (saving flags path))) [
              | inl p ↦
                  let lost : (execute_analyze w (saving flags path)).saved ≡ none =
                    rw (e, execute_analyze) (rw s (rw p refl)) in
                  cc (h, lost)
              | inr (policy, p) ↦
                  let output = resolve_output_format flags.output flags.output_file w.is_terminal in
                  let same : execute_analyze w (saving flags path)
                      ≡ resolve_since w (saving flags path) format output policy =
                    rw (e, execute_analyze) (rw s (rw p refl)) in
                  let checked : check_policy again (comparing flags path) ≡ some policy = p in
                  rw (e, execute_analyze)
                    (rw s (
                      rw checked (
                        since-silent format output policy
                          (ap (λ (o : Outcome). o.saved) (sym same) ∙ h))))
            ]
          ]
        ]
