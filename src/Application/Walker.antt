-- ===== src/Application/Walker.antt =====
-- application/walker.go: one walk over the graph that dispatches to every local rule.
pub mod Laws
pub mod Calls
mod Tests
use shingan.Prelude.{
  String, Bool, true, false, Option, none, some, List, [], ◌∷◌, ◌++◌, map, foldl, is_empty,
  if◌then◌else◌,
}
use shingan.Domain.Finding.{Finding}
use shingan.Domain.Graph.{Node, Edge, WorkflowGraph}
use shingan.Domain.Context.{
  RuleContext, new_rule_context, drain, NodeHandler, EdgeHandler, GraphHandler, Listener, LocalRule,
}

-- A handler that may be nil.
abbrev pub call :
    {A : Type 0} → Option (RuleContext → A → RuleContext) → RuleContext → A → RuleContext
call none c a = c
call (some h) c a = h c a

-- A rule in the walk: its context and its listener.
pub record Active : Type 0 where
  pub context : RuleContext
  pub listener : Listener

unfoldable pub begin : WorkflowGraph → LocalRule → Active
begin g r =
    let c = new_rule_context g r.meta.name in record { context = c; listener = r.listener c }

unfoldable pub on_node : Node → Active → Active
on_node n a = record a {
  context = call (a.listener.on_node n.type) (call a.listener.on_any a.context n) n;
}

unfoldable pub on_edge : Edge → Active → Active
on_edge e a = record a { context = call a.listener.on_edge a.context e }

unfoldable pub on_graph : WorkflowGraph → Active → Active
on_graph g a = record a { context = call a.listener.on_graph a.context g }

unfoldable pub drain_all : List Active → List Finding
drain_all [] = []
drain_all (a ∷ rest) = (drain a.context).0 ++ drain_all rest

-- The three passes, each over all rules.
unfoldable pub passes : WorkflowGraph → List Active → List Active
unfolding on_node on_edge on_graph
passes g active =
    let nodes = foldl (λ all (n : String × Node). map (on_node n.1) all) active g.nodes in
    let edges = foldl (λ all e. map (on_edge e) all) nodes g.edges in map (on_graph g) edges

abbrev pub no_rules : {A : Type 0} → List A → Bool
no_rules [] = true
no_rules (_ ∷ _) = false

unfoldable pub walk : Option WorkflowGraph → List LocalRule → List Finding
unfolding passes drain_all begin
walk none rules = []
walk (some g) rules =
    if no_rules rules
    then []
    else if is_empty g.nodes
    then []
    else drain_all (passes g (map (begin g) rules))
