-- ===== src/Application/Walker/Calls.antt =====
-- Which handlers of a rule the walk calls, and in which order.
use mathlib.Core.List.{flat_map}
use shingan.Prelude.{
  String, false, ◌≡◌, refl, sym, ap, ap₂, ◌∙◌, Option, none, some, List, [], ◌∷◌, ◌++◌, foldl,
  values, is_empty, Dict,
}
use shingan.Domain.Finding.{Finding}
use shingan.Domain.Graph.{Node, Edge, WorkflowGraph}
use shingan.Domain.Context.{RuleContext, new_rule_context, drain, Listener, LocalRule}
use shingan.Application.Walker.{Active, call, begin, on_node, on_edge, on_graph, walk}
use shingan.Application.Walker.Laws.{walk_each, walk_alone}

abbrev pub Step : Type 0
Step = RuleContext → RuleContext

-- The call of a handler, if there is one.
abbrev pub called : {A : Type 0} → Option (RuleContext → A → RuleContext) → A → List Step
called none a = []
called (some h) a = (λ c. h c a) ∷ []

-- On a node the handler for any node is called before that for its type.
abbrev pub node_calls : Listener → Node → List Step
node_calls l n = called l.on_any n ++ called (l.on_node n.type) n

-- All nodes, then all edges, then the graph.
abbrev pub calls : Listener → WorkflowGraph → List Step
calls l g =
    flat_map (node_calls l) (values g.nodes)
    ++ (flat_map (called l.on_edge) g.edges ++ called l.on_graph g)

abbrev pub run : RuleContext → List Step → RuleContext
run c steps = foldl (λ d step. step d) c steps

-- What a rule reports by these calls.
abbrev pub reports : WorkflowGraph → LocalRule → List Finding
reports g r = let c = new_rule_context g r.meta.name in (drain (run c (calls (r.listener c) g))).0

run-append : (c : RuleContext) (xs ys : List Step) → run c (xs ++ ys) ≡ run (run c xs) ys
run-append c [] ys = refl
run-append c (x ∷ xs) ys = run-append (x c) xs ys

run-called :
    {A : Type 0} (h : Option (RuleContext → A → RuleContext)) (c : RuleContext) (a : A)
    → call h c a ≡ run c (called h a)
run-called none c a = refl
run-called (some h) c a = refl

-- The calls on one node, from a context.
node-run :
    (l : Listener) (n : Node) (c : RuleContext)
    → call (l.on_node n.type) (call l.on_any c n) n ≡ run c (node_calls l n)
node-run l n c =
    run-called (l.on_node n.type) (call l.on_any c n) n
    ∙ ap (λ d. run d (called (l.on_node n.type) n)) (run-called l.on_any c n)
    ∙ sym (run-append c (called l.on_any n) (called (l.on_node n.type) n))

abbrev with_context : Active → RuleContext → Active
with_context a c = record a { context = c }

nodes-calls :
    (nodes : Dict Node) (a : Active)
    → foldl (λ x (n : String × Node). on_node n.1 x) a nodes
      ≡ with_context a (run a.context (flat_map (node_calls a.listener) (values nodes)))
unfolding flat_map on_node
nodes-calls [] a = refl
nodes-calls ((id, n) ∷ nodes) a =
    let rest = flat_map (node_calls a.listener) (values nodes) in
    nodes-calls nodes (on_node n a)
    ∙ ap (with_context a) (
        ap (λ c. run c rest) (node-run a.listener n a.context)
        ∙ sym (run-append a.context (node_calls a.listener n) rest))

edges-calls :
    (edges : List Edge) (a : Active)
    → foldl (λ x e. on_edge e x) a edges
      ≡ with_context a (run a.context (flat_map (called a.listener.on_edge) edges))
unfolding flat_map on_edge
edges-calls [] a = refl
edges-calls (e ∷ edges) a =
    let rest = flat_map (called a.listener.on_edge) edges in
    edges-calls edges (on_edge e a)
    ∙ ap (with_context a) (
        ap (λ c. run c rest) (run-called a.listener.on_edge a.context e)
        ∙ sym (run-append a.context (called a.listener.on_edge e) rest))

walk_alone-reports :
    (g : WorkflowGraph) (r : LocalRule)
    → is_empty g.nodes ≡ false
    → walk (some g) (r ∷ []) ≡ reports g r
unfolding on_graph begin
walk_alone-reports g r f =
    let a = begin g r in
    let nodes = flat_map (node_calls a.listener) (values g.nodes) in
    let edges = flat_map (called a.listener.on_edge) g.edges in
    let after_nodes = run a.context nodes in
    walk_alone g r f
    ∙ ap (λ (x : Active). (drain (on_graph g (foldl (λ y e. on_edge e y) x g.edges)).context).0)
        (nodes-calls g.nodes a)
    ∙ ap (λ (x : Active). (drain (on_graph g x).context).0)
        (edges-calls g.edges (with_context a after_nodes))
    ∙ ap (λ (c : RuleContext). (drain c).0)
        (run-called a.listener.on_graph (run after_nodes edges) g
          ∙ sym (run-append after_nodes edges (called a.listener.on_graph g))
          ∙ sym (run-append a.context nodes (edges ++ called a.listener.on_graph g)))

each-reports :
    (g : WorkflowGraph) (rules : List LocalRule)
    → is_empty g.nodes ≡ false
    → flat_map (λ r. walk (some g) (r ∷ [])) rules ≡ flat_map (reports g) rules
unfolding flat_map
each-reports g [] f = refl
each-reports g (r ∷ rules) f = ap₂ ◌++◌ (walk_alone-reports g r f) (each-reports g rules f)

-- On a graph with nodes the walk returns, in the order of the rules, what each rule reports when its
-- handlers are called from a new context of its own: on each node that for any node and then that for
-- the node's type, after all nodes that for edges on each edge, and at last that for the graph.
pub walk-reports :
    (g : WorkflowGraph) (rules : List LocalRule)
    → is_empty g.nodes ≡ false
    → walk (some g) rules ≡ flat_map (reports g) rules
walk-reports g rules f = walk_each g rules ∙ each-reports g rules f
