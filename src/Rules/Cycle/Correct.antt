-- ===== src/Rules/Cycle/Correct.antt =====
-- What a report of the rule, or its absence, means.
use mathlib.Core.List.Memᴰ
use native.Mathlib.Nat.{le_refl}
use shingan.Prelude.{
  ℕ, ◌≤◌, String, ◌≡◌, ap, sym, subst, ◌∙◌, inl, inr, some, [], foldl, keys, is_empty,
  nonempty_of_key, if_cases, length, Memᴰ,
}
use shingan.Prelude.Text.{str_ltb}
use shingan.Prelude.Sort.{sort, Memᴰ-sort}
use shingan.Domain.Finding.{Finding}
use shingan.Domain.Graph.{WorkflowGraph}
use shingan.Rules.Cycle.{
  completed, state_of, visit_isolated, from_entry, explore_to, explore, analyze,
}
use shingan.Rules.Cycle.Spec.{HasNode, Cycle, IsGuarded, Done-Cycle}
use shingan.Rules.Cycle.Roots.{from_entry-Rest, explored, same_entry, same_sweep}

-- The number of nodes is depth enough: the search nests no deeper, whatever more is allowed.
pub explore_to_deeper :
    (g : WorkflowGraph) (depth : ℕ) → length g.nodes ≤ depth → explore_to g depth ≡ explore g
unfolding explore explore_to
explore_to_deeper g depth deep =
    ap (λ x. foldl (visit_isolated g depth) x (sort str_ltb (keys g.nodes)))
      (same_entry g depth deep)
    ∙ same_sweep g depth deep (sort str_ltb (keys g.nodes))
        (λ id m. (Memᴰ-sort str_ltb id (keys g.nodes)).0 m) (from_entry g (length g.nodes))
        (from_entry-Rest g (length g.nodes) (le_refl (length g.nodes)))

-- The search ends with every node of the graph completed: the depth allowed is enough.
pub explore-completed :
    (g : WorkflowGraph) (id : String) → HasNode g id → state_of (explore g) id ≡ completed
unfolding explore
explore-completed g id n = (explored g (length g.nodes) (le_refl (length g.nodes))).1 id n

-- Every finding names a node that lies on a cycle of the graph.
pub analyze_sound :
    (g : WorkflowGraph) (f : Finding) → Memᴰ f (analyze (some g)) → Cycle g f.node_id
unfolding analyze
analyze_sound g f m = elim (if_cases (is_empty g.nodes) [] (explore g).findings) [
  | inl (t, e) ↦ absurd (Memᴰ.not-nil (subst (Memᴰ f) e m))
  | inr (_, e) ↦
      (explored g (length g.nodes) (le_refl (length g.nodes))).0.inv.sound f (subst (Memᴰ f) e m)
]

-- If nothing is reported, every cycle through a node of the graph can be entered from a loop node
-- whose bound is set and below 100.
pub analyze_complete :
    (g : WorkflowGraph)
    → analyze (some g) ≡ []
    → (v : String) → HasNode g v
    → Cycle g v
    → IsGuarded g v
unfolding analyze
analyze_complete g q v n c = elim (if_cases (is_empty g.nodes) [] (explore g).findings) [
  | inl (t, e) ↦ cc (nonempty_of_key v g.nodes n)
  | inr (_, e) ↦
      let (rest, all) = explored g (length g.nodes) (le_refl (length g.nodes)) in
      Done-Cycle g (rest.inv.good (sym e ∙ q) v (all v n)) c
]
