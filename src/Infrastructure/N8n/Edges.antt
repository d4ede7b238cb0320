-- ===== src/Infrastructure/N8n/Edges.antt =====
-- infrastructure/parser/n8n.go, Parse: the second pass, which resolves the connections.
use Prim.Native.String.{◌++◌ as ◌+++◌}
use mathlib.Core.List.{flat_map}
use shingan.Prelude.{
  ℕ, suc, String, Bool, true, false, not, ◌||◌, ◌==◌, Option, none, some, List, [], ◌∷◌, ◌++◌, Dict,
  collect, keys, lookup, get_or, starts_with, nat_eq, map_option, if◌then◌else◌,
}
use shingan.Prelude.Words.{itoa}
use shingan.Prelude.Text.{str_ltb}
use shingan.Prelude.Sort.{sort}
use shingan.Domain.NodeType.{condition}
use shingan.Domain.Graph.{Node, Edge}
use shingan.Infrastructure.N8n.Schema.{N8nConnection, N8nConnectionsByPort}
use shingan.Infrastructure.N8n.NodeTable.{Table, resolve_ref}

unfoldable pub branch_condition : Bool → ℕ → String
unfolding itoa
branch_condition is_condition port =
    if is_condition
    then (if nat_eq port 0
        then "true"
        else if nat_eq port 1
        then "false"
        else ("branch_" +++ itoa port))
    else if nat_eq port 0
    then ""
    else ("branch_" +++ itoa port)

abbrev pub edge_to : String → String → String → Edge
edge_to from cond to = record { from = from; to = to; condition = cond }

-- The body of the loop over the destinations of an output.
unfoldable pub main_edge : Table → String → String → N8nConnection → Option Edge
unfolding resolve_ref
main_edge t from cond c =
    let to = resolve_ref t c.node in if to == "" then none else some (edge_to from cond to)

-- The loop over the outputs of the port "main".
unfoldable pub main_edges : Table → String → Bool → ℕ → List (List N8nConnection) → List Edge
unfolding collect main_edge branch_condition
main_edges t from is_condition port [] = []
main_edges t from is_condition port (conns ∷ rest) =
    collect (main_edge t from (branch_condition is_condition port)) conns
    ++ main_edges t from is_condition (suc port) rest

-- The body of the innermost loop over the destinations of an AI port.
unfoldable pub ai_edge : Table → String → String → N8nConnection → Option Edge
unfolding lookup
ai_edge t from port c = map_option (edge_to from port) (lookup c.node t.name_to_id)

unfoldable pub ai_edges : Table → String → String × List (List N8nConnection) → List Edge
unfolding flat_map collect ai_edge
ai_edges t from (port, conns) =
    if port == "main" || not (starts_with port "ai_")
    then []
    else flat_map (λ cs. collect (ai_edge t from port) cs) conns

abbrev pub from_condition : Option Node → Bool
from_condition none = false
from_condition (some n) = elim n.type [ condition ↦ true | _ ↦ false ]

-- The body of the loop over the sources.
unfoldable pub source_edges : Table → Dict N8nConnectionsByPort → String → List Edge
unfolding resolve_ref lookup main_edges flat_map ai_edges
source_edges t connections src =
    let from = resolve_ref t src in
    let ports = get_or src [] connections in
    if from == ""
    then []
    else (main_edges t from (from_condition (lookup from t.nodes)) 0 (get_or "main" [] ports)
        ++ flat_map (ai_edges t from) ports)

unfoldable pub resolve_edges : Table → Dict N8nConnectionsByPort → List Edge
unfolding flat_map source_edges sort str_ltb
resolve_edges t connections =
    flat_map (source_edges t connections) (sort str_ltb (keys connections))
