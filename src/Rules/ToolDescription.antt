-- ===== src/Rules/ToolDescription.antt =====
-- domain/rules/tool_description_missing.go: tools whose settings do not say what they do.
mod Laws
mod Tests
use Prim.Native.Char.{code}
use shingan.Prelude.{
  ℕ, ◌+◌, String, Bool, true, false, not, ◌&&◌, ◌||◌, ◌==◌, Option, none, some, List, [], ◌∷◌, any,
  collect, values, lookup, is_empty, length, leb, ltb, if◌then◌else◌,
}
use shingan.Prelude.Int.{pos}
use shingan.Domain.NodeType.{NodeType, tool, is_tool}
use shingan.Domain.Value.{Value, boolean, text, array, Items, nil, item}
use shingan.Domain.Finding.{Finding, info, empty_finding, lit, quoted, number, heuristic_pattern}
use shingan.Domain.Graph.{Node, WorkflowGraph}
use shingan.Domain.Config.{get_tool_category}
use shingan.Domain.Context.{RuleMeta, RuleContext, report, Listener, LocalRule, NodeHandler}
use shingan.Application.Ignore.RuleList.{trim, is_space, trim_left, trim_right, fields}

unfoldable meta : RuleMeta
meta = record { name = "tool_description_missing"; severity = info; fixable = false }

abbrev pub min_description_len : ℕ
min_description_len = 10

abbrev pub description_keys : List String
description_keys = "description" ∷ "doc" ∷ "summary" ∷ "help" ∷ "purpose" ∷ []

-- The bytes of a code point in UTF-8.
abbrev width : ℕ → ℕ
width c = if ltb c 128 then 1 else if ltb c 2048 then 2 else if ltb c 65536 then 3 else 4

-- len of a string: its bytes.
unfoldable pub byte_length : String → ℕ
byte_length String.[] = 0
byte_length (String.◌∷◌ c s) = width (code c) + byte_length s

unfoldable pub is_dispatcher : Option Value → Bool
is_dispatcher (some (boolean b)) = b
is_dispatcher _ = false

-- The loop over the value of `_shingan_ignore`.
unfoldable pub lists_rule : Items → Bool
lists_rule nil = false
lists_rule (item (text s) rest) = s == "*" || s == "tool_description_missing" || lists_rule rest
lists_rule (item _ rest) = lists_rule rest

unfoldable pub is_ignored : Option Value → Bool
unfolding lists_rule
is_ignored (some (array items)) = lists_rule items
is_ignored _ = false

-- The body of the loop over the keys.
unfoldable pub is_sufficient : Option Value → Bool
unfolding byte_length is_space trim_left trim_right
is_sufficient (some (text s)) = leb min_description_len (byte_length (trim is_space s))
is_sufficient _ = false

-- The loop over the keys.
unfoldable pub is_described : Node → Bool
unfolding any lookup is_sufficient
is_described n = any (λ key. is_sufficient (lookup key n.config)) description_keys

unfoldable pub is_natural_language_name : String → Bool
unfolding fields is_space
is_natural_language_name name = if name == "" then false else leb 3 (length (fields is_space name))

unfoldable pub description_finding : String → Finding
description_finding id = record empty_finding {
  rule_name = "tool_description_missing";
  severity = info;
  node_id = id;
  message =
      lit "Tool node "
      ∷ quoted id
      ∷ lit
          " has no usable description (Config[\"description\" / \"doc\" / \"summary\" / \"help\"] are all missing or shorter than "
      ∷ number (pos min_description_len)
      ∷ lit " chars). LLM agents pick tools from description text — without one, the model guesses."
      ∷ [];
  suggestion =
      lit
        "Add Config[\"description\"] = \"<one-line natural-language sentence describing what this tool does, when to use it, and what it returns>\". 2-3 sentences is the sweet spot for tool-use selection."
      ∷ [];
  confidence = 60;
  confidence_reason = heuristic_pattern;
}

unfoldable pub evaluate_tool_description : Node → Option Finding
unfolding is_tool get_tool_category is_dispatcher is_ignored is_described lookup
    is_natural_language_name description_finding
evaluate_tool_description n =
    if not (is_tool n.type)
    then none
    else if get_tool_category n == "trigger"
    then none
    else if is_dispatcher (lookup "tool_dispatcher" n.config)
    then none
    else if is_ignored (lookup "_shingan_ignore" n.config)
    then none
    else if is_described n
    then none
    else if is_natural_language_name n.name
    then none
    else some (description_finding n.id)

unfoldable handle : NodeHandler
unfolding evaluate_tool_description report
handle c n = elim (evaluate_tool_description n) [ some f ↦ report c f | none ↦ c ]

abbrev handlers : NodeType → Option NodeHandler
handlers tool = some handle
handlers _ = none

unfoldable listener : RuleContext → Listener
unfolding handle
listener c = record { on_node = handlers; on_any = none; on_edge = none; on_graph = none }

unfoldable pub local_rule : LocalRule
unfolding meta listener
local_rule = record { meta = meta; listener = listener }

unfoldable pub analyze : Option WorkflowGraph → List Finding
unfolding collect evaluate_tool_description
analyze none = []
analyze (some g) =
    if is_empty g.nodes then [] else collect evaluate_tool_description (values g.nodes)
