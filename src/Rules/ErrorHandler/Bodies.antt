-- ===== src/Rules/ErrorHandler/Bodies.antt =====
-- When the bodies of the two loops of the rule on error handling report a finding.
use mathlib.Core.List.Memᴰ
use shingan.Prelude.{
  String, true, false, ◌≡◌, refl, ◌↔◌, ◌⊎◌, inl, inr, Option, none, some, List, [], ◌∷◌, Memᴰ, any,
  collect, lookup, arith, if◌then◌else◌, Bool-cases, any_iff, false_iff, guard_iff, some_inj, ◌||◌,
  subst, Memᴰ-collect,
}
use shingan.Domain.NodeType.{tool, is_tool}
use shingan.Domain.NodeType.Laws.{is_tool_iff}
use shingan.Domain.Finding.{Finding}
use shingan.Domain.Graph.{Node, Edge, WorkflowGraph, outgoing_edges}
use shingan.Rules.ErrorHandler.{
  has_condition_branch, tool_has_error_handling, is_reliable, tool_finding, llm_finding, no_edges,
  no_nodes, check_tool, tool_target, check_llm,
}
use shingan.Rules.ErrorHandler.Spec.{EdgeOf, Branches, LeadsToBranch, Calls}
use shingan.Rules.ErrorHandler.Branch.{
  outgoing_edges_iff, has_condition_branch_iff, all_unconditional_iff, tool_has_error_handling_iff,
  goes_on_iff,
}

module _ (g : WorkflowGraph) where
  no_nodes_iff : (ns : List Node) → (no_nodes ns ≡ false) ↔ ((n : Node) × Memᴰ n ns)
  no_nodes_iff [] = (λ h. cc h, λ h. absurd (Memᴰ.not-nil h.1))
  no_nodes_iff (n ∷ ns) = (λ _. (n, Memᴰ.head refl), λ _. refl)

  check_tool-if :
      (n : Node)
      → check_tool g n ≡ (
          if is_reliable n || (no_edges (outgoing_edges g n.id) || tool_has_error_handling g n)
          then none
          else some (tool_finding n))
  unfolding check_tool
  check_tool-if n = ground arith

  pub check_tool_iff :
      (f : Finding) (n : Node)
      → (check_tool g n ≡ some f) ↔ (
          (is_reliable n ≡ false)
          × ((e : Edge) × EdgeOf g n.id e)
          × (¬ (Branches g n.id ⊎ LeadsToBranch g n.id))
          × (f ≡ tool_finding n))
  check_tool_iff f n =
      let handled = tool_has_error_handling_iff g n in
      rw (check_tool-if n) (
        ground (
          arith,
          guard_iff
              (is_reliable n || (no_edges (outgoing_edges g n.id) || tool_has_error_handling g n))
              (tool_finding n) f,
          goes_on_iff g n.id,
          false_iff (tool_has_error_handling g n) handled,
        ))

  tool_target_iff :
      (t : Node) (o : Option Node) → (tool_target o ≡ some t) ↔ ((o ≡ some t) × (t.type ≡ tool))
  unfolding tool_target
  tool_target_iff t none = (λ h. cc h, λ h. cc h.0)
  tool_target_iff t (some x) = elim (Bool-cases (is_tool x.type)) [
    | inl y ↦ rw y (
      λ h. (h, (is_tool_iff t.type).0 (subst (λ (k : Node). is_tool k.type ≡ true) (some_inj h) y)),
      λ h. h.0,
    )
    | inr z ↦ rw z (
      λ h. cc h,
      λ (e, k).
          cc
            (subst (λ (k : Node). is_tool k.type ≡ false) (some_inj e) z, (is_tool_iff t.type).1 k),
    )
  ]

  abbrev targets : String → List Node
  targets id = collect (λ e. tool_target (lookup e.to g.nodes)) (outgoing_edges g id)

  targets_iff : (id : String) (t : Node) → Memᴰ t (targets id) ↔ Calls g id t
  targets_iff id t =
      let found =
        Memᴰ-collect t (λ (e : Edge). tool_target (lookup e.to g.nodes)) (outgoing_edges g id) in
      (
        λ m.
            let (e, at, h) = found.0 m in
            (e, (outgoing_edges_iff g id e).0 at, (tool_target_iff t (lookup e.to g.nodes)).0 h),
        λ (e, at, h).
            found.1
              (e, (outgoing_edges_iff g id e).1 at, (tool_target_iff t (lookup e.to g.nodes)).1 h),
      )

  uses_tools_iff : (id : String) → (no_nodes (targets id) ≡ false) ↔ ((t : Node) × Calls g id t)
  uses_tools_iff id =
      let some_target = no_nodes_iff (targets id) in
      (
        λ h. let (t, m) = some_target.0 h in (t, (targets_iff id t).0 m),
        λ (t, m). some_target.1 (t, (targets_iff id t).1 m),
      )

  some_handled_iff :
      (id : String)
      → (any (λ t. has_condition_branch g t.id) (targets id) ≡ true)
        ↔ ((t : Node) × Calls g id t × Branches g t.id)
  some_handled_iff id =
      let found = any_iff (λ (t : Node). has_condition_branch g t.id) (targets id) in
      (
        λ h.
            let (t, m, b) = found.0 h in
            (t, (targets_iff id t).0 m, (has_condition_branch_iff g t.id).0 b),
        λ (t, m, b). found.1 (t, (targets_iff id t).1 m, (has_condition_branch_iff g t.id).1 b),
      )

  no_targets :
      (f : Edge → Option Node) (es : List Edge)
      → no_edges es ≡ true
      → no_nodes (collect f es) ≡ true
  unfolding collect
  no_targets f [] h = refl
  no_targets f (e ∷ es) h = cc

  check_llm-if :
      (n : Node)
      → check_llm g n ≡ (
          if no_nodes (targets n.id)
            || (any (λ t. has_condition_branch g t.id) (targets n.id)
                || has_condition_branch g n.id)
          then none
          else some (llm_finding n))
  unfolding check_llm has_condition_branch
  check_llm-if n = ground (
    arith,
    no_targets (λ e. tool_target (lookup e.to g.nodes)) (outgoing_edges g n.id),
    all_unconditional_iff g (outgoing_edges g n.id),
  )

  pub check_llm_iff :
      (f : Finding) (n : Node)
      → (check_llm g n ≡ some f) ↔ (
          ((t : Node) × Calls g n.id t)
          × (¬ (Branches g n.id ⊎ ((t : Node) × Calls g n.id t × Branches g t.id)))
          × (f ≡ llm_finding n))
  check_llm_iff f n = rw (check_llm-if n) (
      ground (
        arith,
        guard_iff
            (no_nodes (targets n.id)
              || (any (λ t. has_condition_branch g t.id) (targets n.id)
                  || has_condition_branch g n.id))
            (llm_finding n) f,
        uses_tools_iff n.id,
        some_handled_iff n.id,
        has_condition_branch_iff g n.id,
      ))
