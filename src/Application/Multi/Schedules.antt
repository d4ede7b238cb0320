-- ===== src/Application/Multi/Schedules.antt =====
-- The report over several files under two schedules.
use mathlib.Core.List.Memᴰ
use mathlib.Core.List.{Permᴰ}
use mathlib.Core.List.Permᴰ
use shingan.Prelude.{
  String, Bool, not, ◌||◌, ◌&&◌, ◌≡◌, refl, ap, ◌∙◌, subst, inl, inr, Option, none, some, List, [],
  ◌∷◌, ◌++◌, map, Memᴰ, Memᴰ-append, Memᴰ-select, Memᴰ-collect, collect, prepend, select, is_empty,
  Bool-cases,
}
use shingan.Prelude.Sort.{Memᴰ-perm, Memᴰ-sort}
use shingan.Domain.Finding.{Finding}
use shingan.Domain.Graph.{WorkflowGraph}
use shingan.Domain.Context.{AnalysisRule}
use shingan.Application.Walker.{no_rules}
use shingan.Application.Orchestrator.{Scheduler, analyze, finding_less}
use shingan.Application.Orchestrator.Laws.{analyze-perm}
use shingan.Application.Policy.{
  Policy, apply_policy, apply_rules, apply_config, merge_rule_config, no_overrides,
}
use shingan.Application.Ignore.Laws.{is_ignored, filter-eq-select}
use shingan.Application.Multi.{
  GraphWithSource, graphs_by_source, resolve_pos, is_meta_ignored, analyze_inputs, kept,
  analyze_multi, stamp,
}

-- Every finding of the one report is in the other.
abbrev pub Within : List Finding → List Finding → Type 0
Within xs ys = (f : Finding) → Memᴰ f xs → Memᴰ f ys

pub select-Within :
    (p : Finding → Bool) (xs ys : List Finding) → Within xs ys → Within (select p xs) (select p ys)
select-Within p xs ys h f m =
    let (at, kept) = (Memᴰ-select f p xs).0 m in (Memᴰ-select f p ys).1 (h f at, kept)

elim-prepend :
    (o : Option Finding) (rest : List Finding)
    → elim o [ some f ↦ f ∷ rest | none ↦ rest ] ≡ prepend o rest
unfolding prepend
elim-prepend none rest = refl
elim-prepend (some f) rest = refl

module _ (glob : String → String → Bool) (p : Policy) where
  configured : Finding → Option Finding
  configured f =
      let effective = merge_rule_config glob p f in
      apply_config effective.enabled effective.severity f

  apply_rules-collect : (fs : List Finding) → apply_rules glob p fs ≡ collect configured fs
  unfolding apply_rules collect prepend configured
  apply_rules-collect [] = refl
  apply_rules-collect (f ∷ fs) =
      elim-prepend (configured f) (apply_rules glob p fs)
      ∙ ap (prepend (configured f)) (apply_rules-collect fs)

apply_policy-Within :
    (glob : String → String → Bool) (policy : Option Policy) (xs ys : List Finding)
    → Within xs ys
    → Within (apply_policy glob xs policy) (apply_policy glob ys policy)
unfolding apply_policy
apply_policy-Within glob none xs ys h = h
apply_policy-Within glob (some p) xs ys h =
    elim (Bool-cases (is_empty p.rules && no_overrides p.overrides)) [
      | inl t ↦ rw t h
      | inr n ↦ rw n (
          rw (apply_rules-collect glob p xs, apply_rules-collect glob p ys)
            (λ f m.
              let (x, at, e) = (Memᴰ-collect f (configured glob p) xs).0 m in
              (Memᴰ-collect f (configured glob p) ys).1 (x, h x at, e)))
    ]

module _ (s t : Scheduler) where
  analyze-Within :
      (g : Option WorkflowGraph) (rules : List AnalysisRule)
      → Within (analyze s g rules) (analyze t g rules)
  analyze-Within g rules f m =
      Memᴰ-perm (Permᴰ.trans (analyze-perm s g rules) (Permᴰ.symm (analyze-perm t g rules))) m

  -- One more input, before the others.
  input-Within :
      (file : String) (rules : List AnalysisRule) (o : Option WorkflowGraph) (xs ys : List Finding)
      → Within xs ys
      → Within
          (elim o [ some g ↦ map (stamp file) (analyze s (some g) rules) ++ xs | none ↦ xs ])
          (elim o [ some g ↦ map (stamp file) (analyze t (some g) rules) ++ ys | none ↦ ys ])
  input-Within file rules none xs ys h f m = h f m
  input-Within file rules (some g) xs ys h f m =
      let stamped = map (stamp file) (analyze t (some g) rules) in
      (Memᴰ-append f stamped ys).1
        (elim ((Memᴰ-append f (map (stamp file) (analyze s (some g) rules)) xs).0 m) [
          | inl here ↦
              let (x, at, is) = Memᴰ.of_map (stamp file) (analyze s (some g) rules) here in
              inl (
                subst (λ y. Memᴰ y stamped) is
                  (Memᴰ.map (stamp file) (analyze-Within (some g) rules x at)))
          | inr there ↦ inr (h f there)
        ])

  inputs-Within :
      (inputs : List GraphWithSource) (rules : List AnalysisRule)
      → Within (analyze_inputs s inputs rules) (analyze_inputs t inputs rules)
  unfolding analyze_inputs
  inputs-Within [] rules f m = m
  inputs-Within (input ∷ inputs) rules f m =
      input-Within input.source_file rules input.graph (analyze_inputs s inputs rules)
        (analyze_inputs t inputs rules) (inputs-Within inputs rules) f m

  module _ (marker : String → Option (String × String)) (open_lines : String → Option (List String))
      (glob : String → String → Bool) (policy : Option Policy) (inputs : List GraphWithSource)
      (rules : List AnalysisRule) where
    kept-Within :
        Within
          (kept s marker open_lines glob policy inputs rules)
          (kept t marker open_lines glob policy inputs rules)
    unfolding kept shingan.Application.Multi.filter_by_node_ignore_meta
    kept-Within =
        let sources = graphs_by_source inputs in
        let first = analyze_inputs s inputs rules in
        let second = analyze_inputs t inputs rules in
        let heeds = λ (f : Finding). not (is_ignored marker open_lines (resolve_pos sources) f) in
        let unset = λ (f : Finding). not (is_meta_ignored sources f) in
        apply_policy-Within glob policy _ _ (
          rw
            (
              filter-eq-select marker open_lines (resolve_pos sources) first,
              filter-eq-select marker open_lines (resolve_pos sources) second,
            )
            (select-Within unset (select heeds first) (select heeds second)
              (select-Within heeds first second (inputs-Within inputs rules))))

    -- Under two schedules the report over several files holds the same findings.
    pub analyze_multi-Within :
        Within
          (analyze_multi s marker open_lines glob policy inputs rules)
          (analyze_multi t marker open_lines glob policy inputs rules)
    unfolding analyze_multi
    analyze_multi-Within = elim (Bool-cases (no_rules inputs || no_rules rules)) [
      | inl e ↦ rw e (λ f m. m)
      | inr n ↦ rw n (λ f m.
          (Memᴰ-sort finding_less f (kept t marker open_lines glob policy inputs rules)).1 (
            kept-Within f
              ((Memᴰ-sort finding_less f (kept s marker open_lines glob policy inputs rules)).0 m)))
    ]
