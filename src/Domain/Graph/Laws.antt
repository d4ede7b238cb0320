-- ===== src/Domain/Graph/Laws.antt =====
-- The nodes of a graph that is read from JSON.
use shingan.Prelude.{
  String, ◌==◌, ◌≡◌, refl, ◌∙◌, Option, none, some, List, [], ◌∷◌, foldl, Dict, lookup, insert,
  lookup-insert, arith, if◌then◌else◌,
}
use shingan.Domain.Graph.{Node, WorkflowGraphJson, add_node, of_json, get_node}

-- The last node of the array with an identifier.
unfoldable pub last_node : String → List (Option Node) → Option Node
last_node id [] = none
last_node id (entry ∷ rest) = elim (last_node id rest) [
  | some n ↦ some n
  | none ↦ elim entry [ some n ↦ if n.id == id then some n else none | none ↦ none ]
]

lookup-add_node :
    (id : String) (nodes : List (Option Node)) (m : Dict Node)
    → lookup id (foldl add_node m nodes)
      ≡ elim (last_node id nodes) [ some n ↦ some n | none ↦ lookup id m ]
unfolding add_node last_node
lookup-add_node id [] m = refl
lookup-add_node id (none ∷ rest) m = lookup-add_node id rest m ∙ ground arith
lookup-add_node id (some n ∷ rest) m =
    lookup-add_node id rest (insert n.id n m) ∙ ground (arith, lookup-insert n.id id n m)

-- In a graph that is read from JSON an identifier stands for the last node of the array that has
-- it, and for none if no node has it; a null in the array changes nothing.
pub get_node-of_json :
    (raw : WorkflowGraphJson) (id : String) → get_node (of_json raw) id ≡ last_node id raw.nodes
unfolding get_node of_json lookup
get_node-of_json raw id = lookup-add_node id raw.nodes [] ∙ ground arith
