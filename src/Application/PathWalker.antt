-- ===== src/Application/PathWalker.antt =====
-- application/path_walker.go: the shared reverse adjacency, and the context of each path rule.
mod Tests
use shingan.Prelude.{
  String, ◌==◌, eq_iff, ◌≡◌, refl, sym, ap, ◌∙◌, List, [], ◌∷◌, ◌++◌, foldl, Dict, insert, lookup,
  lookup-insert, get_or, select, arith, if◌then◌else◌,
}
use mathlib.Core.List.{append-nil, append_assoc}
use shingan.Domain.Finding.{Finding}
use shingan.Domain.Graph.{Node, Edge, WorkflowGraph, incoming_edges}
use shingan.Domain.Context.{PathContext, PathRule}

unfoldable pub add_reverse : Dict (List Edge) → Edge → Dict (List Edge)
add_reverse m e = insert e.to (get_or e.to [] m ++ e ∷ []) m

unfoldable pub build_reverse_adjacency : WorkflowGraph → Dict (List Edge)
unfolding add_reverse
build_reverse_adjacency g = foldl add_reverse [] g.edges

-- The call of one path rule.
unfoldable pub run_path_rule : WorkflowGraph → PathRule → List Finding
unfolding build_reverse_adjacency
run_path_rule g r = r.propagate (record {
  graph = g;
  rule_name = r.meta.name;
  sources = r.sources g;
  sinks = r.sinks g;
  reverse = build_reverse_adjacency g;
})

get_or-add_reverse :
    (v : String) (m : Dict (List Edge)) (e : Edge)
    → get_or v [] (add_reverse m e) ≡ get_or v [] m ++ select (λ d. d.to == v) (e ∷ [])
unfolding add_reverse select
get_or-add_reverse v m e = ground (
  arith,
  lookup-insert e.to v (get_or e.to [] m ++ e ∷ []) m,
  eq_iff e.to v,
  append-nil (get_or v [] m),
)

get_or-reverse :
    (v : String) (m : Dict (List Edge)) (es : List Edge)
    → get_or v [] (foldl add_reverse m es) ≡ get_or v [] m ++ select (λ d. d.to == v) es
unfolding select
get_or-reverse v m [] = sym (append-nil (get_or v [] m))
get_or-reverse v m (e ∷ es) = ground (
  arith,
  get_or-reverse v (add_reverse m e) es,
  get_or-add_reverse v m e,
  append_assoc (get_or v [] m) (select (λ d. d.to == v) (e ∷ [])) (select (λ d. d.to == v) es),
)

-- The entry of a node in the reverse adjacency is the list of its incoming edges, in order.
pub reverse-eq-incoming :
    (g : WorkflowGraph) (v : String) → get_or v [] (build_reverse_adjacency g) ≡ incoming_edges g v
unfolding build_reverse_adjacency incoming_edges lookup
reverse-eq-incoming g v = get_or-reverse v [] g.edges
