-- ===== src/Application/Multi/Laws.antt =====
-- What the analysis of several files returns.
use mathlib.Core.List.Memᴰ
use shingan.Prelude.{
  String, Bool, false, not, ◌||◌, ◌≡◌, refl, sym, subst, Option, List, map, Memᴰ, Memᴰ-select,
  Bool-cases, inl, inr, arith, some, [], ◌∷◌, lookup, insert, eq_iff,
}
use shingan.Prelude.Sort.{IsSorted, sort, sort-IsSorted, map-sort, IsSorted-of_keys, Memᴰ-sort}
use shingan.Domain.Finding.{Finding, Severity}
use shingan.Domain.Context.{AnalysisRule}
use shingan.Domain.Graph.{WorkflowGraph}
use shingan.Application.Walker.{no_rules}
use shingan.Application.Orchestrator.{Scheduler, finding_less}
use shingan.Application.Orchestrator.Order.{key, key_less, key_less-IsOrder, finding-key}
use shingan.Application.Policy.{Policy}
use shingan.Application.Policy.Laws.{mem_of_apply_policy}
use shingan.Application.Ignore.Laws.{is_ignored, filter-eq-select}
use shingan.Application.Multi.{
  GraphWithSource, graphs_by_source, resolve_pos, is_meta_ignored, filter_by_node_ignore_meta,
  analyze_inputs, kept, analyze_multi, make_graph_pos_resolver, node_of,
}

-- Sorting findings sorts their keys.
sorted : (xs : List Finding) → IsSorted finding_less (sort finding_less xs)
sorted xs = IsSorted-of_keys key finding_less key_less finding-key (sort finding_less xs) (
    subst (IsSorted key_less) (sym (map-sort key finding_less key_less finding-key xs))
      (sort-IsSorted key_less key_less-IsOrder (map key xs)))

module _ (s : Scheduler) (marker : String → Option (String × String))
    (open_lines : String → Option (List String)) (glob : String → String → Bool)
    (policy : Option Policy) (inputs : List GraphWithSource) (rules : List AnalysisRule) where
  -- The report over several files is sorted, after the policy has changed severities.
  pub analyze_multi-IsSorted :
      IsSorted finding_less (analyze_multi s marker open_lines glob policy inputs rules)
  unfolding analyze_multi
  analyze_multi-IsSorted = elim (Bool-cases (no_rules inputs || no_rules rules)) [
    | inl t ↦ rw t tt
    | inr n ↦ rw n (sorted (kept s marker open_lines glob policy inputs rules))
  ]

  mem_of_kept :
      (f : Finding)
      → Memᴰ f (kept s marker open_lines glob policy inputs rules)
      → (given : Finding) × (sev : Severity) × Memᴰ given (analyze_inputs s inputs rules)
        × (f ≡ record given { severity = sev })
        × (is_ignored marker open_lines (resolve_pos (graphs_by_source inputs)) given ≡ false)
        × (is_meta_ignored (graphs_by_source inputs) given ≡ false)
  unfolding kept filter_by_node_ignore_meta
  mem_of_kept f m =
      let sources = graphs_by_source inputs in
      let all = analyze_inputs s inputs rules in
      let (given, sev, at, e) = mem_of_apply_policy glob policy _ f m in
      let (there, heeded) = (Memᴰ-select given (λ x. not (is_meta_ignored sources x)) _).0 at in
      let (found, unmarked) =
        (Memᴰ-select given (λ x. not (is_ignored marker open_lines (resolve_pos sources) x)) all).0
          (subst (Memᴰ given) (filter-eq-select marker open_lines (resolve_pos sources) all)
            there) in
      (given, sev, found, e, ground (arith, unmarked), ground (arith, heeded))

  -- Every finding of the report over several files is one that the analysis of the inputs made, at
  -- most with another severity, and neither a comment in its file nor the `_shingan_ignore` of its
  -- node suppresses it.
  pub analyze_multi-heeds_ignores :
      (f : Finding)
      → Memᴰ f (analyze_multi s marker open_lines glob policy inputs rules)
      → (given : Finding) × (sev : Severity) × Memᴰ given (analyze_inputs s inputs rules)
        × (f ≡ record given { severity = sev })
        × (is_ignored marker open_lines (resolve_pos (graphs_by_source inputs)) given ≡ false)
        × (is_meta_ignored (graphs_by_source inputs) given ≡ false)
  unfolding analyze_multi
  analyze_multi-heeds_ignores f m = elim (Bool-cases (no_rules inputs || no_rules rules)) [
    | inl t ↦ absurd (Memᴰ.not-nil (subst (Memᴰ f) (rw t refl) m))
    | inr n ↦ mem_of_kept f (
        (Memᴰ-sort finding_less f (kept s marker open_lines glob policy inputs rules)).0
          (subst (Memᴰ f) (rw n refl) m))
  ]

-- For one file with a graph the resolver that AnalyzeMulti makes, asked about that file, answers as the
-- one that MakeGraphPosResolver makes.
pub resolve_pos-make_graph_pos_resolver :
    (g : WorkflowGraph) (file node : String)
    → resolve_pos (graphs_by_source (record { graph = some g; source_file = file } ∷ [])) file node
      ≡ make_graph_pos_resolver file (some g) file node
unfolding resolve_pos graphs_by_source make_graph_pos_resolver node_of lookup insert
resolve_pos-make_graph_pos_resolver g file node = rw ((eq_iff file file).1 refl, resolve_pos) refl
