-- ===== src/Rules/LoopGuard/Laws.antt =====
-- The rule behind the shared walk finds what its own loop over the nodes finds.
use mathlib.Core.List.{append-nil, append_assoc}
use shingan.Prelude.{
  String, false, ◌≡◌, refl, ap, sym, ◌∙◌, Option, some, none, inl, inr, List, [], ◌∷◌, ◌++◌, foldl,
  Dict, is_empty, arith, Bool-cases,
}
use shingan.Domain.Finding.{Finding}
use shingan.Domain.Graph.{Node, Edge, WorkflowGraph}
use shingan.Domain.Context.{RuleContext, report, drain, new_rule_context}
use shingan.Application.Walker.{Active, begin, on_node, on_edge, on_graph, walk}
use shingan.Application.Walker.Laws.{walk_alone, walk-empty}
use shingan.Rules.LoopGuard.{
  is_loop_node, evaluate_loop_guard, handle, listener, local_rule, check_nodes, analyze,
}

-- The active rule with some findings in its buffer.
abbrev holding : WorkflowGraph → List Finding → Active
holding g fs =
    let c : RuleContext = record { graph = g; rule_name = "loop_guard"; buffer = fs } in
    record { context = c; listener = listener c }

on_node-holding :
    (g : WorkflowGraph) (fs : List Finding) (id : String) (n : Node)
    → on_node n (holding g fs) ≡ holding g (fs ++ check_nodes ((id, n) ∷ []))
unfolding on_node listener handle report check_nodes evaluate_loop_guard is_loop_node
on_node-holding g fs id n = ground (arith, append-nil fs)

check_nodes-cons :
    (id : String) (n : Node) (ns : Dict Node)
    → check_nodes ((id, n) ∷ ns) ≡ check_nodes ((id, n) ∷ []) ++ check_nodes ns
unfolding check_nodes evaluate_loop_guard is_loop_node
check_nodes-cons id n ns = ground arith

on_nodes-holding :
    (g : WorkflowGraph) (fs : List Finding) (ns : Dict Node)
    → foldl (λ x (n : String × Node). on_node n.1 x) (holding g fs) ns
      ≡ holding g (fs ++ check_nodes ns)
unfolding check_nodes
on_nodes-holding g fs [] = ap (holding g) (sym (append-nil fs))
on_nodes-holding g fs ((id, n) ∷ ns) =
    ap (λ a. foldl (λ x (n : String × Node). on_node n.1 x) a ns) (on_node-holding g fs id n)
    ∙ on_nodes-holding g (fs ++ check_nodes ((id, n) ∷ [])) ns
    ∙ ap (holding g) (
        append_assoc fs (check_nodes ((id, n) ∷ [])) (check_nodes ns)
        ∙ ap (λ x. fs ++ x) (sym (check_nodes-cons id n ns)))

on_edges-holding :
    (g : WorkflowGraph) (fs : List Finding) (es : List Edge)
    → foldl (λ x e. on_edge e x) (holding g fs) es ≡ holding g fs
unfolding on_edge listener
on_edges-holding g fs [] = refl
on_edges-holding g fs (e ∷ es) = on_edges-holding g fs es

walk_nonempty :
    (g : WorkflowGraph)
    → is_empty g.nodes ≡ false
    → walk (some g) (local_rule ∷ []) ≡ check_nodes g.nodes
unfolding begin new_rule_context drain on_graph local_rule
walk_nonempty g f =
    walk_alone g local_rule f
    ∙ ap (λ a. (drain (on_graph g (foldl (λ x e. on_edge e x) a g.edges)).context).0)
        (on_nodes-holding g [] g.nodes)
    ∙ ap (λ a. (drain (on_graph g a).context).0) (on_edges-holding g (check_nodes g.nodes) g.edges)

-- Dispatched by the shared walk, the rule reports what its own `Analyze` reports, in the same order.
pub walk-eq-analyze : (g : Option WorkflowGraph) → walk g (local_rule ∷ []) ≡ analyze g
unfolding analyze walk
walk-eq-analyze none = refl
walk-eq-analyze (some g) = elim (Bool-cases (is_empty g.nodes)) [
  | inl t ↦ walk-empty g t (local_rule ∷ []) ∙ sym (rw t)
  | inr f ↦ walk_nonempty g f ∙ sym (rw f)
]
