-- ===== src/Infrastructure/N8n/NodeTable.antt =====
-- infrastructure/parser/n8n.go, Parse: the first pass, which builds the table of the nodes.
use Prim.Native.String.{◌++◌ as ◌+++◌}
use shingan.Prelude.{
  ℕ, ◌+◌, String, Bool, false, ◌||◌, ◌==◌, none, some, List, [], ◌∷◌, ◌++◌, foldl, Dict, insert,
  lookup, get_or, is_some, if◌then◌else◌,
}
use shingan.Prelude.Words.{itoa}
use shingan.Prelude.Words.{to_lower}
use shingan.Domain.Value.{Config, text, array, Items, nil, item}
use shingan.Domain.Graph.{Node}
use shingan.Infrastructure.N8n.Schema.{N8nNode}
use shingan.Infrastructure.N8n.Kind.{map_n8n_node_type, contains_any}

-- The variables of the loop over the nodes.
pub record Table : Type 0 where
  pub nodes : Dict Node
  pub name_to_id : Dict String
  pub uuid_to_id : Dict String
  pub node_order : List String
  pub suffix_counter : Dict ℕ

abbrev pub empty_table : Table
empty_table = record {
  nodes = [];
  name_to_id = [];
  uuid_to_id = [];
  node_order = [];
  suffix_counter = [];
}

-- Disabled nodes and sticky notes.
unfoldable pub is_skipped : N8nNode → Bool
unfolding contains_any to_lower
is_skipped raw = raw.disabled || contains_any (to_lower raw.type) ("stickynote" ∷ [])

unfoldable pub base_id : N8nNode → String
base_id raw = if raw.name == "" then raw.id else raw.name

unfoldable pub ignored_items : List String → Items
ignored_items [] = nil
ignored_items (r ∷ rest) = item (text r) (ignored_items rest)

abbrev pub with_category : String → Config → Config
with_category category cfg = if category == "" then cfg else insert "category" (text category) cfg

abbrev pub with_ignored : List String → Config → Config
with_ignored [] cfg = cfg
with_ignored (r ∷ rest) cfg = insert "_shingan_ignore" (array (ignored_items (r ∷ rest))) cfg

unfoldable pub config_of : N8nNode → String → Config
unfolding insert ignored_items
config_of raw category =
    with_ignored raw.shingan_ignore
      (insert "n8n_type" (text raw.type) (with_category category raw.parameters))

unfoldable pub n8n_node : N8nNode → String → Node
unfolding config_of map_n8n_node_type
n8n_node raw id =
    let (type, category) = map_n8n_node_type raw.type in
    record {
      id = id;
      name = raw.name;
      type = type;
      config = config_of raw category;
      max_iterations = none;
      tool_category = category;
      model_name = "";
      temperature = none;
      max_concurrency = none;
      pos = record { file = ""; line = 0; col = 0 };
      has_exit_branch = false;
    }

-- The writes at the end of the loop's body.
unfoldable pub store_node : N8nNode → String → Table → Table
unfolding n8n_node insert
store_node raw id t = record t {
  nodes = insert id (n8n_node raw id) t.nodes;
  name_to_id = insert raw.name id t.name_to_id;
  uuid_to_id = if raw.id == "" then t.uuid_to_id else insert raw.id id t.uuid_to_id;
  node_order = t.node_order ++ id ∷ [];
}

-- Whether the identifier is taken, and the next suffix for it if so.
unfoldable pub place : N8nNode → Table → Table
unfolding store_node base_id itoa lookup insert
place raw t =
    let base = base_id raw in
    let n = get_or base 0 t.suffix_counter + 1 in
    if is_some (lookup base t.nodes)
    then store_node raw (base +++ ("_" +++ itoa n))
        (record t { suffix_counter = insert base n t.suffix_counter })
    else store_node raw base t

-- The body of the loop.
unfoldable pub add_raw : Table → N8nNode → Table
unfolding is_skipped place
add_raw t raw = if is_skipped raw then t else place raw t

unfoldable pub build_table : List N8nNode → Table
unfolding add_raw
build_table raws = foldl add_raw empty_table raws

-- The closure resolveRef: "" if neither map has the reference.
unfoldable pub resolve_ref : Table → String → String
unfolding lookup
resolve_ref t ref = elim (lookup ref t.name_to_id) [
  | some id ↦ id
  | none ↦ get_or ref "" t.uuid_to_id
]
