-- ===== src/Rules/Cost/Report.antt =====
-- What the rule reports.
use shingan.Prelude.{
  String, true, ◌==◌, eq_iff, ◌≡◌, refl, sym, ◌∙◌, ap, subst, ◌↔◌, ◌⊎◌, inl, inr, some, some_inj,
  List, Memᴰ, Memᴰ-select, Memᴰ-collect, collect, contains, contains_iff, is_empty, select_of_empty,
  values, Bool-cases,
}
use shingan.Domain.NodeType.{llm, is_llm}
use shingan.Domain.NodeType.Laws.{is_llm_iff}
use shingan.Domain.Config.{get_model_name}
use shingan.Domain.Finding.{Finding, warning}
use shingan.Domain.Graph.{Node, WorkflowGraph}
use shingan.Rules.CircularAgents.{string_config}
use shingan.Rules.Cost.{
  CostTier, unknown, low, mid, high, is_high, tier_for, nodes_in_loops, loop_finding,
  simple_finding, check_cost, run_cost_checks, sources, analyze,
}
use shingan.Rules.Cost.Walks.{LeadsToCycle}
use shingan.Rules.Cost.Idle.{nodes_in_loops-LeadsToCycle}

is_high_iff : (t : CostTier) → (is_high t ≡ true) ↔ (t ≡ high)
is_high_iff high = (λ _. refl, λ _. refl)
is_high_iff unknown = (λ h. cc h, λ h. cc h)
is_high_iff mid = (λ h. cc h, λ h. cc h)
is_high_iff low = (λ h. cc h, λ h. cc h)

-- Why a node is reported, and how.
abbrev pub Reported : List String → Node → Finding → Type 0
Reported in_loop n f =
    (tier_for (get_model_name n) ≡ high)
    × (Memᴰ n.id in_loop × (f ≡ loop_finding n.id (get_model_name n))
        ⊎ (¬ Memᴰ n.id in_loop)
          × (string_config n "task_complexity" ≡ "simple")
          × (f ≡ simple_finding n.id (get_model_name n)))

check_cost_iff :
    (in_loop : List String) (n : Node) (f : Finding)
    → (check_cost in_loop n ≡ some f) ↔ Reported in_loop n f
unfolding check_cost
check_cost_iff in_loop n f =
    let dear = is_high_iff (tier_for (get_model_name n)) in
    let looped = contains_iff in_loop n.id in
    let simple = eq_iff (string_config n "task_complexity") "simple" in
    elim (Bool-cases (is_high (tier_for (get_model_name n)))) [
      | inr d ↦ rw d (λ h. cc h, λ r. cc (dear.1 r.0, d))
      | inl d ↦ elim (Bool-cases (contains in_loop n.id)) [
        | inl l ↦
            rw (d, l)
              (
                λ h. (dear.0 d, inl (looped.0 l, sym (some_inj h))),
                λ r. elim r.1 [
                  | inl (m, e) ↦ ap some (sym e)
                  | inr (m, s, e) ↦ absurd (m (looped.0 l))
                ],
              )
        | inr l ↦ elim (Bool-cases (string_config n "task_complexity" == "simple")) [
          | inl s ↦
              rw (d, l, s)
                (
                  λ h. (dear.0 d, inr (λ m. cc (looped.1 m, l), simple.0 s, sym (some_inj h))),
                  λ r. elim r.1 [
                    | inl (m, e) ↦ cc (looped.1 m, l)
                    | inr (m, t, e) ↦ ap some (sym e)
                  ],
                )
          | inr s ↦
              rw (d, l, s)
                (
                  λ h. cc h,
                  λ r. elim r.1 [
                    | inl (m, e) ↦ cc (looped.1 m, l)
                    | inr (m, t, e) ↦ cc (simple.1 t, s)
                  ],
                )
        ]
      ]
    ]

analyze_some :
    (g : WorkflowGraph) → analyze (some g) ≡ run_cost_checks (sources g) (nodes_in_loops g)
unfolding analyze run_cost_checks sources collect
analyze_some g = elim (Bool-cases (is_empty g.nodes)) [
  | inl t ↦ rw (t, select_of_empty (λ n. is_llm n.type) g.nodes t) refl
  | inr f ↦ rw f refl
]

-- A finding is reported exactly if it is that of an LLM of the graph with an expensive model, which is
-- counted as in a loop, or else is set for simple tasks.
pub analyze-Reported :
    (g : WorkflowGraph) (f : Finding)
    → Memᴰ f (analyze (some g))
      ↔ ((n : Node) × Memᴰ n (values g.nodes) × (n.type ≡ llm) × Reported (nodes_in_loops g) n f)
unfolding run_cost_checks sources
analyze-Reported g f =
    let in_loop = nodes_in_loops g in
    let found = Memᴰ-collect f (check_cost in_loop) (sources g) in
    let listed = λ (n : Node). Memᴰ-select n (λ (x : Node). is_llm x.type) (values g.nodes) in
    rw (analyze_some g) (
      λ m.
          let (n, at, h) = found.0 m in
          let (there, kind) = (listed n).0 at in
          (n, there, (is_llm_iff n.type).0 kind, (check_cost_iff in_loop n f).0 h),
      λ (n, there, kind, r).
          found.1
            (n, (listed n).1 (there, (is_llm_iff n.type).1 kind), (check_cost_iff in_loop n f).1 r),
    )

simple-not-warning : (id model : String) → ¬ ((simple_finding id model).severity ≡ warning)
unfolding simple_finding
simple-not-warning id model h = cc h

loop_finding_id : (id model : String) → (loop_finding id model).node_id ≡ id
unfolding loop_finding
loop_finding_id id model = refl

-- A warning of the rule is about an LLM of the graph with an expensive model, from which edges lead to
-- a node that lies on a cycle.
pub warning-LeadsToCycle :
    (g : WorkflowGraph) (f : Finding)
    → Memᴰ f (analyze (some g))
    → f.severity ≡ warning
    → (n : Node) × Memᴰ n (values g.nodes)
      × (n.type ≡ llm)
      × (f.node_id ≡ n.id)
      × (tier_for (get_model_name n) ≡ high)
      × LeadsToCycle g n.id
warning-LeadsToCycle g f m w =
    let (n, at, kind, (dear, why)) = (analyze-Reported g f).0 m in
    elim why [
      | inl (looped, e) ↦ (
        n,
        at,
        kind,
        ap (λ (x : Finding). x.node_id) e ∙ loop_finding_id n.id (get_model_name n),
        dear,
        nodes_in_loops-LeadsToCycle g n.id looped,
      )
      | inr (out, s, e) ↦ absurd (
          simple-not-warning n.id (get_model_name n)
            (subst (λ (x : Finding). x.severity ≡ warning) e w))
    ]
