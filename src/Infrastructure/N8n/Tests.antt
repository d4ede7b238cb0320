-- ===== src/Infrastructure/N8n/Tests.antt =====
-- Small n8n documents, and what the parser makes of them.
use mathlib.Core.List.Memᴰ
use shingan.Prelude.{
  String, false, ◌≡◌, ◌≢◌, refl, some, List, [], ◌∷◌, map, Memᴰ, keys, lookup, arith, length,
  select, ne_of_test, ◌≤◌,
}
use shingan.Prelude.Int.{pos}
use shingan.Domain.Graph.{Node, Edge, WorkflowGraph}
use shingan.Rules.Reachability.{analyze}
use shingan.Infrastructure.N8n.{virtual_root, root_edge, of_workflow, parse}
use shingan.Infrastructure.N8n.Schema.{N8nNode, N8nConnection, N8nWorkflow}
use shingan.Infrastructure.N8n.NodeTable.{build_table, n8n_node, is_skipped}
use shingan.Infrastructure.N8n.Edges.{edge_to, resolve_edges}
use shingan.Infrastructure.N8n.Names.{AreNamed, kept, entry_of, build_table-names}
use shingan.Infrastructure.N8n.Reached.{roots_of, IsStart, roots_of-IsStart, Reach-IsStart}
use shingan.Infrastructure.N8n.Whole.{IsClosed, of_workflow-IsClosed, unreachable-not-trigger}
use shingan.Rules.Reachability.Spec.{Reach}
use shingan.Domain.Config.{get_tool_category}

abbrev raw : String → String → N8nNode
raw name type = record {
  id = "";
  name = name;
  type = type;
  parameters = [];
  position = [];
  disabled = false;
  shingan_ignore = [];
}

abbrev to : String → N8nConnection
to name = record { node = name; type = "main"; index = pos 0 }

-- A hook leads to a test, whose outputs lead to two calls; a second trigger stands alone.
abbrev hooks : N8nWorkflow
hooks = record {
  name = "hooks";
  nodes =
      raw "Hook" "n8n-nodes-base.webhook"
      ∷ raw "Test" "n8n-nodes-base.if"
      ∷ raw "Yes" "n8n-nodes-base.httpRequest"
      ∷ raw "No" "n8n-nodes-base.httpRequest"
      ∷ raw "Note" "n8n-nodes-base.stickyNote"
      ∷ raw "Timer" "n8n-nodes-base.scheduleTrigger"
      ∷ [];
  connections =
      ("Hook", ("main", (to "Test" ∷ []) ∷ []) ∷ [])
      ∷ ("Test", ("main", (to "Yes" ∷ []) ∷ (to "No" ∷ []) ∷ []) ∷ [])
      ∷ [];
}

of_workflow-hooks :
    (keys (of_workflow hooks).nodes ≡ "Hook" ∷ "Test" ∷ "Yes" ∷ "No" ∷ "Timer" ∷ virtual_root ∷ [])
    × ((of_workflow hooks).edges
        ≡ edge_to "Hook" "" "Test"
          ∷ edge_to "Test" "true" "Yes"
          ∷ edge_to "Test" "false" "No"
          ∷ root_edge "Hook"
          ∷ root_edge "Timer"
          ∷ [])
unfolding of_workflow shingan.Domain.Config.config_string
of_workflow-hooks = (refl, refl)

-- The second of two nodes with one name takes the identifier of a third, which is lost.
abbrev clashing : List N8nNode
clashing = raw "a" "x.http" ∷ raw "a_1" "x.if" ∷ raw "a" "x.code" ∷ []

build_table-clashing :
    (build_table clashing).nodes
    ≡ ("a", n8n_node (raw "a" "x.http") "a") ∷ ("a_1", n8n_node (raw "a" "x.code") "a_1") ∷ []
unfolding build_table
build_table-clashing = refl

-- With one root that is no trigger, a node without any edge that comes before it is the entry, and
-- the root and what follows it are reported.
abbrev detached : N8nWorkflow
detached = record {
  name = "detached";
  nodes = raw "Loose" "x.http" ∷ raw "Head" "x.http" ∷ raw "Tail" "x.http" ∷ [];
  connections = ("Head", ("main", (to "Tail" ∷ []) ∷ []) ∷ []) ∷ [];
}

analyze-detached :
    map (λ f. f.node_id) (analyze (some (of_workflow detached))) ≡ "Head" ∷ "Tail" ∷ []
unfolding of_workflow analyze shingan.Rules.Reachability.ai_reverse
    shingan.Domain.Graph.outgoing_edges
analyze-detached = refl

hooks-named : (of_workflow hooks).entry_node_id ≢ ""
unfolding of_workflow shingan.Domain.Config.config_string
hooks-named = ne_of_test virtual_root "" refl

lookup-timer :
    lookup "Timer" (of_workflow hooks).nodes
    ≡ some (n8n_node (raw "Timer" "n8n-nodes-base.scheduleTrigger") "Timer")
unfolding of_workflow shingan.Domain.Config.config_string
lookup-timer = refl

timer_category :
    get_tool_category (n8n_node (raw "Timer" "n8n-nodes-base.scheduleTrigger") "Timer") ≡ "trigger"
unfolding get_tool_category n8n_node
timer_category = refl

unreachable-not-trigger_example :
    ¬ Memᴰ "Timer" (map (λ f. f.node_id) (analyze (some (of_workflow hooks))))
unreachable-not-trigger_example =
    unreachable-not-trigger hooks "Timer"
      (n8n_node (raw "Timer" "n8n-nodes-base.scheduleTrigger") "Timer") hooks-named lookup-timer
      timer_category

of_workflow-IsClosed_example : IsClosed (of_workflow hooks)
of_workflow-IsClosed_example = of_workflow-IsClosed hooks

abbrev noted : List N8nNode
noted = raw "Note" "n8n-nodes-base.stickyNote" ∷ raw "A" "x.http" ∷ raw "B" "x.if" ∷ []

noted-AreNamed : AreNamed (kept noted)
unfolding is_skipped select
noted-AreNamed = (
  ne_of_test "A" "" refl,
  λ m. ne_of_test "A" "B" refl (Memᴰ.eq_of_singleton m),
  (ne_of_test "B" "" refl, λ m. Memᴰ.not-nil m, tt),
)

build_table-names_example : (build_table noted).nodes ≡ map entry_of (kept noted)
build_table-names_example = build_table-names noted noted-AreNamed

-- A timer, and a flow of two calls beside it.
abbrev beside : N8nWorkflow
beside = record detached { nodes = raw "Timer" "x.trigger" ∷ detached.nodes }

two_roots : 2 ≤ length (roots_of beside)
unfolding build_table resolve_edges shingan.Infrastructure.N8n.Entry.entry_root_ids
two_roots = omega arith

head_listed : Memᴰ "Head" (roots_of beside)
unfolding build_table shingan.Infrastructure.N8n.Entry.entry_root_ids resolve_edges
head_listed = Memᴰ.tail (Memᴰ.head refl)

head-IsStart : IsStart beside "Head"
head-IsStart = (roots_of-IsStart beside "Head").0 head_listed

Reach-IsStart_example : Reach (of_workflow beside) "Head"
Reach-IsStart_example = Reach-IsStart beside "Head" two_roots head-IsStart
