-- ===== src/Infrastructure/N8n/Whole.antt =====
-- The parsed graph as a whole, and what the rule on unreachable nodes says of it.
use mathlib.Core.List.Memᴰ
use shingan.Prelude.{
  String, ◌≡◌, ◌≢◌, sym, ◌∙◌, ap, subst, inl, inr, some, some_inj, List, [], ◌∷◌, map, Memᴰ, lookup,
  lookup-insert, insert, key_of_lookup, lookup_of_key, keys, str_cases, if◌then◌else◌,
}
use shingan.Domain.Config.{get_tool_category}
use shingan.Domain.Graph.{Node, Edge, WorkflowGraph}
use shingan.Rules.Reachability.{analyze}
use shingan.Rules.Reachability.Spec.{HasNode}
use shingan.Rules.Reachability.Report.{analyze-unreachable}
use shingan.Infrastructure.N8n.{virtual_root, root_node, root_edge, enter, of_workflow}
use shingan.Infrastructure.N8n.Schema.{N8nWorkflow}
use shingan.Infrastructure.N8n.NodeTable.{Table, build_table}
use shingan.Infrastructure.N8n.Edges.{resolve_edges}
use shingan.Infrastructure.N8n.Entry.{pick_entry_node}
use shingan.Infrastructure.N8n.Closed.{Has, IsTable, build_table-IsTable}
use shingan.Infrastructure.N8n.Joined.{Joins, resolve_edges-Joins}
use shingan.Infrastructure.N8n.Reached.{
  pick-listed, HasNode-insert, roots_of, roots_of-IsStart, Reach-of_workflow,
}

-- The parsed graph holds together.
pub record IsClosed (g : WorkflowGraph) : Type 0 where
  pub own_id : (id : String) (n : Node) → lookup id g.nodes ≡ some n → n.id ≡ id
  pub joined : (e : Edge) → Memᴰ e g.edges → HasNode g e.from × HasNode g e.to
  pub entered : (id : String) → HasNode g id → HasNode g g.entry_node_id

module _ (t : Table) (v : IsTable t) (edges : List Edge) where
  HasNode-picked :
      (id : String)
      → Memᴰ id (keys t.nodes)
      → Memᴰ (pick_entry_node t.nodes t.node_order edges) (keys t.nodes)
  HasNode-picked id m =
      let (n, h) = lookup_of_key id t.nodes m in
      let picked = pick_entry_node t.nodes t.node_order edges in
      let (p, q) =
        v.ordered picked (pick-listed t.nodes t.node_order edges id (v.listed id (n, h))) in
      key_of_lookup picked p t.nodes q

  own_id-insert :
      (id : String) (n : Node)
      → lookup id (insert virtual_root root_node t.nodes) ≡ some n
      → n.id ≡ id
  unfolding root_node
  own_id-insert id n h =
      let read = lookup-insert virtual_root id root_node t.nodes in
      elim (str_cases virtual_root id) [
        | inl (e, s) ↦
            let same : some root_node ≡ some n =
              subst (λ b. (if b then some root_node else lookup id t.nodes) ≡ some n) s
                (sym read ∙ h) in
            ap (λ (x : Node). x.id) (sym (some_inj same)) ∙ e
        | inr (d, s) ↦ v.own_id id n (
            subst (λ b. (if b then some root_node else lookup id t.nodes) ≡ some n) s
              (sym read ∙ h))
      ]

  HasNode-virtual : Memᴰ virtual_root (keys (insert virtual_root root_node t.nodes))
  HasNode-virtual =
      let read = lookup-insert virtual_root virtual_root root_node t.nodes in
      key_of_lookup virtual_root root_node _ read

  module _ (joins : (e : Edge) → Memᴰ e edges → Joins t e) where
    joined-old : (e : Edge) → Memᴰ e edges → Memᴰ e.from (keys t.nodes) × Memᴰ e.to (keys t.nodes)
    joined-old e m =
        let (f, to) = joins e m in
        (key_of_lookup e.from f.0 t.nodes f.1, key_of_lookup e.to to.0 t.nodes to.1)

    enter-IsClosed :
        (roots : List String)
        → ((id : String) → Memᴰ id roots → Has t id)
        → IsClosed (enter t edges roots)
    unfolding enter
    enter-IsClosed [] has = record {
      own_id = v.own_id;
      joined = joined-old;
      entered = HasNode-picked;
    }
    enter-IsClosed (a ∷ []) has = record {
      own_id = v.own_id;
      joined = joined-old;
      entered = HasNode-picked;
    }
    enter-IsClosed (a ∷ b ∷ more) has = record {
      own_id = own_id-insert;
      joined = λ e m. elim (Memᴰ.append_cases edges m) [
        | inl old ↦
            let (f, to) = joins e old in
            (HasNode-insert t.nodes e.from f.0 f.1, HasNode-insert t.nodes e.to to.0 to.1)
        | inr new ↦
            let (r, at, is) = Memᴰ.of_map root_edge (a ∷ b ∷ more) new in
            let (n, h) = has r at in
            subst
              (λ (d : Edge).
                Memᴰ d.from (keys (insert virtual_root root_node t.nodes))
                × Memᴰ d.to (keys (insert virtual_root root_node t.nodes)))
              is (HasNode-virtual, HasNode-insert t.nodes r n h)
      ];
      entered = λ id m. HasNode-virtual;
    }

-- In a parsed graph every node stands under its own identifier, every edge joins two nodes, and the
-- entry is a node, if there are nodes at all.
pub of_workflow-IsClosed : (wf : N8nWorkflow) → IsClosed (of_workflow wf)
unfolding of_workflow
of_workflow-IsClosed wf =
    let t = build_table wf.nodes in
    let v = build_table-IsTable wf.nodes in
    enter-IsClosed t v (resolve_edges t wf.connections) (resolve_edges-Joins t v wf.connections)
      (roots_of wf) (λ id m. let (n, h, _) = (roots_of-IsStart wf id).0 m in (n, h))

-- In a parsed document with an entry the rule on unreachable nodes names no trigger.
pub unreachable-not-trigger :
    (wf : N8nWorkflow) (id : String) (n : Node)
    → (of_workflow wf).entry_node_id ≢ ""
    → lookup id (of_workflow wf).nodes ≡ some n
    → get_tool_category n ≡ "trigger"
    → ¬ Memᴰ id (map (λ f. f.node_id) (analyze (some (of_workflow wf))))
unreachable-not-trigger wf id n named h trigger reported =
    let g = of_workflow wf in
    let closed = of_workflow-IsClosed wf in
    let here = key_of_lookup id n g.nodes h in
    let (_, away) =
      (analyze-unreachable g (record { named = named; is_node = closed.entered id here }) id).0
        reported in
    away ∣ Reach-of_workflow wf id n h trigger ∣₁
