-- ===== src/Cli/Analyze/Later.antt =====
-- A later run finds nothing that the first did not find, and the baseline of a run knows its findings.
use shingan.Prelude.{
  ℕ, String, Bool, false, not, ltb, leb, ◌++◌, ◌≡◌, refl, ap, inl, inr, Option, none, some, List,
  [], ◌∷◌, Memᴰ, select, Bool-cases,
}
use shingan.Domain.Finding.{Finding}
use shingan.Domain.Baseline.{in_baseline, new_baseline_from_findings}
use shingan.Domain.Baseline.Laws.{known_self, in_baseline-new_baseline}
use shingan.Application.Orchestrator.{Scheduler}
use shingan.Application.Policy.{Policy}
use shingan.Application.Multi.{GraphWithSource}
use shingan.Application.Multi.Schedules.{Within, select-Within, analyze_multi-Within}
use shingan.Plugin.{rules}
use shingan.Cli.Filters.{filter_new, filter_by_confidence, filter_by_changed_files_multi}
use shingan.Cli.Analyze.{AnalyzeFlags, Shell, filtered, at_least}

-- The first run saves a baseline, and the second one compares with it.
abbrev pub saving : AnalyzeFlags → String → AnalyzeFlags
saving flags path = record flags { baseline = ""; save_baseline = path }

abbrev pub comparing : AnalyzeFlags → String → AnalyzeFlags
comparing flags path = record flags { baseline = path; save_baseline = "" }

select-none {ℓ} :
    {A : Type ℓ} (p : A → Bool) (xs : List A)
    → ((x : A) → Memᴰ x xs → p x ≡ false)
    → select p xs ≡ []
unfolding select
select-none p [] h = refl
select-none p (x ∷ xs) h = rw (h x (Memᴰ.head refl)) (select-none p xs (λ y m. h y (Memᴰ.tail m)))

-- The surroundings of a later run: another clock, and other orders in which goroutines end.
abbrev pub later_run : Shell → Scheduler → ℕ → Shell
later_run w t now = record w { scheduler = t; now = now }

module _ (w : Shell) (t : Scheduler) (later : ℕ) (flags : AnalyzeFlags) (path : String) where
  abbrev again : Shell
  again = later_run w t later

  -- A baseline knows the findings that it was made of.
  pub filter_new-own :
      (fs gs : List Finding)
      → Within gs fs
      → filter_new w.digest gs (some (new_baseline_from_findings w.digest w.now fs)) ≡ []
  unfolding filter_new
  filter_new-own fs gs within =
      let own = some (new_baseline_from_findings w.digest w.now fs) in
      select-none (λ f. not (in_baseline w.digest own f)) gs
        (λ f m.
          ap not (
            (in_baseline-new_baseline w.digest w.now fs f).1
              (f, within f m, known_self w.digest f)))

  -- The analysis of the later run finds nothing else.
  at_least-Within :
      (xs ys : List Finding)
      → Within xs ys
      → Within (at_least again (comparing flags path) xs) (at_least w (saving flags path) ys)
  unfolding at_least filter_by_confidence
  at_least-Within xs ys h = elim (Bool-cases (ltb 0 flags.min_confidence)) [
    | inl e ↦ rw e (select-Within (λ f. leb flags.min_confidence f.confidence) xs ys h)
    | inr n ↦ rw n h
  ]

  pub filtered-Within :
      (policy : Option Policy) (changed : Option (List String)) (inputs : List GraphWithSource)
      → Within
          (filtered again (comparing flags path) policy changed inputs)
          (filtered w (saving flags path) policy changed inputs)
  unfolding filtered filter_by_changed_files_multi
  filtered-Within policy none inputs = at_least-Within _ _ (
      analyze_multi-Within t w.scheduler w.marker w.open_lines w.glob policy inputs
        (w.built_in ++ rules w.registry))
  filtered-Within policy (some []) inputs = at_least-Within [] [] (λ f m. m)
  filtered-Within policy (some (c ∷ cs)) inputs = at_least-Within _ _ (
      select-Within _ _ _ (
        analyze_multi-Within t w.scheduler w.marker w.open_lines w.glob policy inputs
          (w.built_in ++ rules w.registry)))
