-- ===== src/Rules/EvalDataset/Laws.antt =====
-- When the rule reports, and on which node.
use shingan.Prelude.{
  String, true, ◌≡◌, ◌↔◌, ◌⊎◌, inl, inr, some, [], ◌∷◌, Memᴰ, lookup, values, is_empty, Bool-cases,
  any_iff, refl,
}
use shingan.Domain.Graph.{Node, WorkflowGraph}
use shingan.Rules.HumanGate.{is_deployed, find_deploy_signal}
use shingan.Rules.HumanGate.Laws.{Has, first_key-cases, empty-Has}
use shingan.Rules.EvalDataset.{
  eval_dataset_keys, is_filled, declares_eval, has_eval_signal, eval_finding, unless_evaluated,
  evaluate_missing_eval_dataset, analyze,
}

-- Some node of the graph has a filled value under one of the keys.
abbrev IsEvaluated : WorkflowGraph → Type 0
IsEvaluated g =
    (n : Node) × Memᴰ n (values g.nodes)
    × ((key : String) × Memᴰ key eval_dataset_keys × (is_filled (lookup key n.config) ≡ true))

has_eval_signal_iff : (g : WorkflowGraph) → (has_eval_signal g ≡ true) ↔ IsEvaluated g
unfolding has_eval_signal declares_eval
has_eval_signal_iff g =
    let on_node = any_iff declares_eval (values g.nodes) in
    let by_key = λ (n : Node). any_iff (λ key. is_filled (lookup key n.config)) eval_dataset_keys in
    (
      λ h. let (n, m, d) = on_node.0 h in (n, m, (by_key n).0 d),
      λ (n, m, k). on_node.1 (n, m, (by_key n).1 k),
    )

-- The rule reports one finding, on a deployed node, if the graph has one and no node names a data
-- set for evaluation, and otherwise none.
analyze-deployed :
    (g : WorkflowGraph)
    → ((deploy : String) × Has is_deployed g.nodes deploy
        × (¬ IsEvaluated g)
        × (analyze (some g) ≡ eval_finding deploy ∷ []))
      ⊎ ((((id : String) × Has is_deployed g.nodes id) → IsEvaluated g) × (analyze (some g) ≡ []))
unfolding analyze evaluate_missing_eval_dataset find_deploy_signal unless_evaluated
analyze-deployed g = elim (Bool-cases (is_empty g.nodes)) [
  | inl t ↦ inr (λ (id, h). absurd (empty-Has g.nodes id t h), rw t refl)
  | inr f ↦ elim (first_key-cases is_deployed g.nodes) [
    | inl (e, nowhere) ↦ inr (λ (id, h). absurd (nowhere id h), rw (f, e) refl)
    | inr (d, e, deploys) ↦ elim (Bool-cases (has_eval_signal g)) [
      | inl t ↦ inr (λ _. (has_eval_signal_iff g).0 t, rw (f, e, t) refl)
      | inr s ↦ inl (d, deploys, λ v. cc ((has_eval_signal_iff g).1 v, s), rw (f, e, s) refl)
    ]
  ]
]
