-- ===== src/Rules/ErrorHandler/Branch.antt =====
-- When a node of the rule on error handling has an edge to go on by, and when its failures are handled.
use mathlib.Core.List.Memᴰ
use shingan.Prelude.{
  String, true, false, ◌==◌, ◌≡◌, ◌≢◌, refl, sym, ◌↔◌, ◌⊎◌, inl, inr, Option, none, some, List, [],
  ◌∷◌, Memᴰ, any, lookup, arith, eq_iff, any_iff, some_inj, subst, Memᴰ-select,
}
use shingan.Domain.NodeType.{NodeType, control, condition}
use shingan.Domain.Graph.{Node, Edge, WorkflowGraph, outgoing_edges}
use shingan.Rules.ErrorHandler.{
  is_conditional, has_condition_branch, is_condition_node, all_unconditional, is_branch,
  tool_has_error_handling, no_edges,
}
use shingan.Rules.ErrorHandler.Spec.{EdgeOf, Branches, LeadsToBranch}

is_condition_node_iff :
    (t : NodeType) → (is_condition_node t ≡ true) ↔ ((t ≡ condition) ⊎ (t ≡ control))
unfolding is_condition_node
is_condition_node_iff condition = (λ _. inl refl, λ _. refl)
is_condition_node_iff control = (λ _. inr refl, λ _. refl)
is_condition_node_iff _ = (λ h. cc h, λ h. elim h [ inl e ↦ cc e | inr e ↦ cc e ])

is_conditional_iff : (e : Edge) → (is_conditional e ≡ true) ↔ (e.condition ≢ "")
is_conditional_iff e = ground (arith, eq_iff e.condition "")

module _ (g : WorkflowGraph) where
  pub outgoing_edges_iff : (id : String) (e : Edge) → Memᴰ e (outgoing_edges g id) ↔ EdgeOf g id e
  unfolding outgoing_edges
  outgoing_edges_iff id e =
      ground (arith, Memᴰ-select e (λ d. d.from == id) g.edges, eq_iff e.from id)

  pub has_condition_branch_iff : (id : String) → (has_condition_branch g id ≡ true) ↔ Branches g id
  unfolding has_condition_branch
  has_condition_branch_iff id =
      let found = any_iff is_conditional (outgoing_edges g id) in
      (
        λ h.
            let (e, m, c) = found.0 h in
            (e, (outgoing_edges_iff id e).0 m, (is_conditional_iff e).0 c),
        λ (e, m, c). found.1 (e, (outgoing_edges_iff id e).1 m, (is_conditional_iff e).1 c),
      )

  is_branch_iff :
      (o : Option Node)
      → (is_branch g o ≡ true) ↔ (
          (next : Node) × (o ≡ some next)
          × ((next.type ≡ condition) ⊎ (next.type ≡ control))
          × Branches g next.id)
  unfolding is_branch
  is_branch_iff none = (λ h. cc h, λ h. cc h.1)
  is_branch_iff (some n) =
      let kind = is_condition_node_iff n.type in
      let branches = has_condition_branch_iff n.id in
      (
        λ h. (n, refl, kind.0 (ground (arith, h)), branches.0 (ground (arith, h))),
        λ (m, e, k, b).
            subst (λ (x : Node). is_branch g (some x) ≡ true) (sym (some_inj e))
              (ground
                (arith, (is_condition_node_iff m.type).1 k, (has_condition_branch_iff m.id).1 b)),
      )

  pub all_unconditional_iff :
      (es : List Edge) → (all_unconditional es ≡ false) ↔ (any is_conditional es ≡ true)
  unfolding all_unconditional any
  all_unconditional_iff [] = (λ h. cc h, λ h. cc h)
  all_unconditional_iff (e ∷ es) = ground (arith, all_unconditional_iff es)

  LeadsToBranch-iff :
      (id : String)
      → (any (λ e. is_branch g (lookup e.to g.nodes)) (outgoing_edges g id) ≡ true)
        ↔ LeadsToBranch g id
  LeadsToBranch-iff id =
      let found = any_iff (λ (e : Edge). is_branch g (lookup e.to g.nodes)) (outgoing_edges g id) in
      (
        λ h.
            let (e, m, c) = found.0 h in
            (e, (outgoing_edges_iff id e).0 m, (is_branch_iff (lookup e.to g.nodes)).0 c),
        λ (e, m, c).
            found.1 (e, (outgoing_edges_iff id e).1 m, (is_branch_iff (lookup e.to g.nodes)).1 c),
      )

  pub tool_has_error_handling_iff :
      (n : Node) → (tool_has_error_handling g n ≡ true) ↔ (Branches g n.id ⊎ LeadsToBranch g n.id)
  unfolding tool_has_error_handling has_condition_branch
  tool_has_error_handling_iff n = ground (
    arith,
    all_unconditional_iff (outgoing_edges g n.id),
    has_condition_branch_iff n.id,
    LeadsToBranch-iff n.id,
  )

  no_edges_iff : (es : List Edge) → (no_edges es ≡ false) ↔ ((e : Edge) × Memᴰ e es)
  no_edges_iff [] = (λ h. cc h, λ h. absurd (Memᴰ.not-nil h.1))
  no_edges_iff (e ∷ es) = (λ _. (e, Memᴰ.head refl), λ _. refl)

  pub goes_on_iff :
      (id : String) → (no_edges (outgoing_edges g id) ≡ false) ↔ ((e : Edge) × EdgeOf g id e)
  goes_on_iff id =
      let some_edge = no_edges_iff (outgoing_edges g id) in
      (
        λ h. let (e, m) = some_edge.0 h in (e, (outgoing_edges_iff id e).0 m),
        λ (e, m). some_edge.1 (e, (outgoing_edges_iff id e).1 m),
      )
