-- ===== src/Application/Orchestrator/Laws.antt =====
-- What a run of the orchestrator returns, for every order in which the batches arrive.
use mathlib.Core.List.Permᴰ
use mathlib.Core.List.{Permᴰ, flatten, flat_map, append_assoc}
use shingan.Prelude.{
  ◌≡◌, refl, sym, subst, ap, ap₂, ◌∙◌, Option, none, some, Bool-cases, inl, inr, List, [], ◌∷◌,
  ◌++◌, map, is_empty, if◌then◌else◌,
}
use shingan.Prelude.Sort.{
  IsSorted, sort, sort-perm, sort-IsSorted, sort-eq_of_perm, map-sort, IsSorted-of_keys,
}
use shingan.Prelude.Perms.{perm_of_eq, perm_front, perm_append, flatten-perm}
use shingan.Domain.Finding.{Finding}
use shingan.Domain.Graph.{WorkflowGraph}
use shingan.Domain.Context.{LocalRule, PathRule, GlobalRule, AnalysisRule}
use shingan.Application.Walker.{walk}
use shingan.Application.Walker.Laws.{walk_each}
use shingan.Application.PathWalker.{run_path_rule}
use shingan.Application.Orchestrator.{
  Tiers, place_as, classify, Scheduler, finding_less, message_template_ids, normalize, walk_globals,
  walk_paths, batches, analyze,
}
use shingan.Application.Orchestrator.Order.{key, key_less, key_less-IsOrder, finding-key}

-- What a path rule finds in a graph, if there is one with nodes.
abbrev pub path_findings : Option WorkflowGraph → PathRule → List Finding
path_findings none r = []
path_findings (some g) r = if is_empty g.nodes then [] else run_path_rule g r

-- What a rule finds by itself, in the first of its tiers.
abbrev pub findings_as :
    Option GlobalRule
    → Option PathRule
    → Option LocalRule
    → AnalysisRule
    → Option WorkflowGraph
    → List Finding
findings_as (some v) _ _ r g = v.analyze_global g
findings_as none (some v) _ r g = path_findings g v
findings_as none none (some v) r g = walk g (v ∷ [])
findings_as none none none r g = r.analyze g

unfoldable pub rule_findings : Option WorkflowGraph → AnalysisRule → List Finding
rule_findings g r = findings_as r.as_global r.as_path r.as_local r g

-- What the rules find, each by itself, before anything is normalized.
unfoldable pub each_findings : Option WorkflowGraph → List AnalysisRule → List Finding
unfolding rule_findings
each_findings g [] = []
each_findings g (r ∷ rules) = rule_findings g r ++ each_findings g rules

module _ (g : Option WorkflowGraph) where
  -- The findings of four buckets, bucket by bucket.
  tiers_findings : Tiers → List Finding
  tiers_findings t =
      flat_map (λ (r : GlobalRule). r.analyze_global g) t.globals
      ++ (flat_map (λ r. walk g (r ∷ [])) t.locals
          ++ (flat_map (path_findings g) t.paths
              ++ flat_map (λ (r : AnalysisRule). r.analyze g) t.legacy))

  place-perm :
      (as_global : Option GlobalRule) (as_path : Option PathRule) (as_local : Option LocalRule)
      (r : AnalysisRule) (t : Tiers)
      → Permᴰ
          (tiers_findings (place_as as_global as_path as_local r t))
          (findings_as as_global as_path as_local r g ++ tiers_findings t)
  unfolding place_as tiers_findings flat_map
  place-perm (some v) _ _ r t = perm_of_eq (append_assoc (v.analyze_global g) _ _)
  place-perm none (some v) _ r t =
      let fs = path_findings g v in
      let globals = flat_map (λ (r : GlobalRule). r.analyze_global g) t.globals in
      let locals = flat_map (λ r. walk g (r ∷ [])) t.locals in
      let paths = flat_map (path_findings g) t.paths in
      let legacy = flat_map (λ (r : AnalysisRule). r.analyze g) t.legacy in
      Permᴰ.trans
        (Permᴰ.append_left globals (
          Permᴰ.trans (Permᴰ.append_left locals (perm_of_eq (append_assoc fs paths legacy)))
            (perm_front locals fs (paths ++ legacy))))
        (perm_front globals fs (locals ++ (paths ++ legacy)))
  place-perm none none (some v) r t =
      let fs = walk g (v ∷ []) in
      let globals = flat_map (λ (r : GlobalRule). r.analyze_global g) t.globals in
      let locals = flat_map (λ r. walk g (r ∷ [])) t.locals in
      let rest =
        flat_map (path_findings g) t.paths
        ++ flat_map (λ (r : AnalysisRule). r.analyze g) t.legacy in
      Permᴰ.trans (Permᴰ.append_left globals (perm_of_eq (append_assoc fs locals rest)))
        (perm_front globals fs (locals ++ rest))
  place-perm none none none r t =
      let fs = r.analyze g in
      let globals = flat_map (λ (r : GlobalRule). r.analyze_global g) t.globals in
      let locals = flat_map (λ r. walk g (r ∷ [])) t.locals in
      let paths = flat_map (path_findings g) t.paths in
      let legacy = flat_map (λ (r : AnalysisRule). r.analyze g) t.legacy in
      Permᴰ.trans
        (Permᴰ.append_left globals (
          Permᴰ.trans (Permᴰ.append_left locals (perm_front paths fs legacy))
            (perm_front locals fs (paths ++ legacy))))
        (perm_front globals fs (locals ++ (paths ++ legacy)))

  classify-perm :
      (rules : List AnalysisRule) → Permᴰ (tiers_findings (classify rules)) (each_findings g rules)
  unfolding classify tiers_findings flat_map each_findings rule_findings
  classify-perm [] = Permᴰ.nil
  classify-perm (r ∷ rules) =
      Permᴰ.trans (place-perm r.as_global r.as_path r.as_local r (classify rules))
        (Permᴰ.append_left (rule_findings g r) (classify-perm rules))

flatten-map {ℓ κ} :
    {A : Type ℓ} {B : Type κ} (f : A → List B) (xs : List A) → flatten (map f xs) ≡ flat_map f xs
unfolding flatten flat_map
flatten-map f [] = refl
flatten-map f (x ∷ xs) = ap (λ r. f x ++ r) (flatten-map f xs)

flat_map-nil {ℓ κ} :
    {A : Type ℓ} {B : Type κ} (f : A → List B)
    → ((x : A) → f x ≡ [])
    → (xs : List A) → flat_map f xs ≡ []
unfolding flat_map
flat_map-nil f h [] = refl
flat_map-nil f h (x ∷ xs) = ap₂ ◌++◌ (h x) (flat_map-nil f h xs)

flat_map-same {ℓ κ} :
    {A : Type ℓ} {B : Type κ} (f h : A → List B)
    → ((x : A) → f x ≡ h x)
    → (xs : List A) → flat_map f xs ≡ flat_map h xs
unfolding flat_map
flat_map-same f h e [] = refl
flat_map-same f h e (x ∷ xs) = ap₂ ◌++◌ (e x) (flat_map-same f h e xs)

module _ (s : Scheduler) where
  arranged :
      {A : Type 0} (f : A → List Finding) (xs : List A)
      → Permᴰ (flatten (s.arrange (map f xs))) (flat_map f xs)
  arranged f xs =
      Permᴰ.trans (flatten-perm (s.arrange-perm (map f xs))) (perm_of_eq (flatten-map f xs))

  walk_paths-perm :
      (g : Option WorkflowGraph) (rules : List PathRule)
      → Permᴰ (walk_paths s g rules) (flat_map (path_findings g) rules)
  unfolding walk_paths flat_map
  walk_paths-perm none rules =
      perm_of_eq (sym (flat_map-nil (path_findings none) (λ r. refl) rules))
  walk_paths-perm (some g) rules = elim (Bool-cases (is_empty g.nodes)) [
    | inl t ↦ rw t (perm_of_eq (sym (flat_map-nil (path_findings (some g)) (λ r. rw t refl) rules)))
    | inr f ↦ rw f (
        Permᴰ.trans (arranged (run_path_rule g) rules) (
          perm_of_eq
            (flat_map-same (run_path_rule g) (path_findings (some g)) (λ r. rw f refl) rules)))
  ]

  walk_all :
      (g : Option WorkflowGraph) (rules : List LocalRule)
      → walk g rules ≡ flat_map (λ r. walk g (r ∷ [])) rules
  unfolding walk
  walk_all none rules = sym (flat_map-nil (λ r. walk none (r ∷ [])) (λ r. refl) rules)
  walk_all (some g) rules = walk_each g rules

  batches-perm :
      (g : Option WorkflowGraph) (t : Tiers) → Permᴰ (flatten (batches s g t)) (tiers_findings g t)
  unfolding batches flatten tiers_findings walk_globals
  batches-perm g t = perm_append (arranged (λ r. r.analyze_global g) t.globals) (
      perm_append (perm_of_eq (walk_all g t.locals)) (
        perm_append (walk_paths-perm g t.paths)
          (perm_of_eq (flatten-map (λ r. r.analyze g) t.legacy))))

  -- For every schedule of the walkers and of the legacy rules, the report holds exactly what each
  -- rule finds by itself in the first of its tiers (global, path, local, then its own `Analyze`),
  -- normalized, and each finding as often: none is lost, and none is reported twice.
  pub analyze-perm :
      (g : Option WorkflowGraph) (rules : List AnalysisRule)
      → Permᴰ
          (analyze s g rules)
          (map (normalize (message_template_ids rules)) (each_findings g rules))
  unfolding analyze each_findings
  analyze-perm g [] = Permᴰ.nil
  analyze-perm g (r ∷ rules) = Permᴰ.trans (sort-perm finding_less _) (
      Permᴰ.map (normalize (message_template_ids (r ∷ rules))) (
        Permᴰ.trans (flatten-perm (s.arrange-perm (batches s g (classify (r ∷ rules)))))
          (Permᴰ.trans (batches-perm g (classify (r ∷ rules))) (classify-perm g (r ∷ rules)))))

  keys-analyze :
      (g : Option WorkflowGraph) (rules : List AnalysisRule)
      → map key (analyze s g rules)
        ≡ sort key_less
            (map key (map (normalize (message_template_ids rules)) (each_findings g rules)))
  unfolding analyze each_findings sort
  keys-analyze g [] = refl
  keys-analyze g (r ∷ rules) =
      map-sort key finding_less key_less finding-key (
        map (normalize (message_template_ids (r ∷ rules)))
          (flatten (s.arrange (batches s g (classify (r ∷ rules))))))
      ∙ sort-eq_of_perm key_less key_less-IsOrder (
          Permᴰ.map key (
            Permᴰ.map (normalize (message_template_ids (r ∷ rules))) (
              Permᴰ.trans (flatten-perm (s.arrange-perm (batches s g (classify (r ∷ rules))))) (
                Permᴰ.trans (batches-perm g (classify (r ∷ rules)))
                  (classify-perm g (r ∷ rules))))))

  -- A report is sorted: no finding comes after one that `findingLess` puts behind it, that is by
  -- severity and confidence descending, then by rule, file and node.
  pub analyze-IsSorted :
      (g : Option WorkflowGraph) (rules : List AnalysisRule)
      → IsSorted finding_less (analyze s g rules)
  unfolding analyze
  analyze-IsSorted g [] = tt
  analyze-IsSorted g (r ∷ rules) =
      let xs = sort finding_less (
        map (normalize (message_template_ids (r ∷ rules)))
          (flatten (s.arrange (batches s g (classify (r ∷ rules)))))) in
      IsSorted-of_keys key finding_less key_less finding-key xs (
        subst (IsSorted key_less) (sym (map-sort key finding_less key_less finding-key _))
          (sort-IsSorted key_less key_less-IsOrder _))

-- The sort keys of a report (severity, confidence, rule, file and node) are the same, in the same
-- order, for every two schedules: only findings with equal keys can change places.
pub analyze-keys :
    (s t : Scheduler) (g : Option WorkflowGraph) (rules : List AnalysisRule)
    → map key (analyze s g rules) ≡ map key (analyze t g rules)
analyze-keys s t g rules = keys-analyze s g rules ∙ sym (keys-analyze t g rules)
