-- ===== src/Rules/Reachability/Report.antt =====
-- What the rule reports: the nodes out of reach, or that there is nothing to start from.
use mathlib.Core.List.Memᴰ
use shingan.Prelude.{
  String, Bool, true, not, str_cases, ◌≡◌, ◌≢◌, ap, sym, subst, ◌↔◌, inl, inr, some, ◌∙◌, map, Memᴰ,
  Memᴰ-select, nonempty_of_key, keys, contains, contains_iff, select, arith, Bool-cases,
}
use shingan.Domain.Finding.{Finding}
use shingan.Domain.Graph.{Node, WorkflowGraph}
use shingan.Rules.Reachability.{search, unreachable, analyze}
use shingan.Rules.Reachability.Spec.{HasNode, Reach}
use shingan.Rules.Reachability.Correct.{search_correct}

-- The graph has an entry that can be searched from.
pub record HasEntry (g : WorkflowGraph) : Type 0 where
  pub named : g.entry_node_id ≢ ""
  pub is_node : HasNode g g.entry_node_id

module _ (g : WorkflowGraph) where
  abbrev missed : String × Node → Bool
  missed n = not (contains (search g).visited n.0)

  analyze_with_entry : HasEntry g → analyze (some g) ≡ map (unreachable g) (select missed g.nodes)
  unfolding analyze
  analyze_with_entry h = elim (str_cases g.entry_node_id "") [
    | inl (e, t) ↦ absurd (h.named e)
    | inr (n, f) ↦
        rw
          (
            nonempty_of_key g.entry_node_id g.nodes h.is_node,
            f,
            (contains_iff (keys g.nodes) g.entry_node_id).1 h.is_node,
          )
          (ground arith)
  ]

  missed_iff : HasEntry g → (n : String × Node) → (missed n ≡ true) ↔ (¬ ∥ Reach g n.0 ∥₁)
  missed_iff h n =
      let (_, exact) = search_correct g h.is_node in
      (
        λ m r. cc (m, (exact n.0).1 r),
        λ away. elim (Bool-cases (contains (search g).visited n.0)) [
          | inl seen ↦ absurd (away ((exact n.0).0 seen))
          | inr f ↦ rw f
        ],
      )

-- From an entry that is set and is a node, the nodes that the rule names are exactly the nodes of
-- the graph that no path from the entry reaches.
pub analyze-unreachable :
    (g : WorkflowGraph)
    → HasEntry g
    → (id : String)
    → Memᴰ id (map (λ f. f.node_id) (analyze (some g))) ↔ (HasNode g id × ¬ ∥ Reach g id ∥₁)
analyze-unreachable g h id = rw (analyze_with_entry g h) (
  λ m.
      let (f, at, is) =
        Memᴰ.of_map (λ (f : Finding). f.node_id) (map (unreachable g) (select (missed g) g.nodes))
          m in
      let (n, at', made) = Memᴰ.of_map (unreachable g) (select (missed g) g.nodes) at in
      let (at'', out) = (Memᴰ-select n (missed g) g.nodes).0 at' in
      let same : n.0 ≡ id = ap (λ (f : Finding). f.node_id) made ∙ is in
      (
        subst (HasNode g) same (Memᴰ.map (λ (n : String × Node). n.0) at''),
        subst (λ x. ¬ ∥ Reach g x ∥₁) same ((missed_iff g h n).0 out),
      ),
  λ (here, away).
      let (n, at, is) = Memᴰ.of_map (λ (n : String × Node). n.0) g.nodes here in
      let out = (missed_iff g h n).1 (subst (λ x. ¬ ∥ Reach g x ∥₁) (sym is) away) in
      Memᴰ.cast (sym is) (
        Memᴰ.map (λ (f : Finding). f.node_id)
          (Memᴰ.map (unreachable g) ((Memᴰ-select n (missed g) g.nodes).1 (at, out)))),
)
