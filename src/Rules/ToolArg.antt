-- ===== src/Rules/ToolArg.antt =====
-- domain/rules/unbounded_tool_arg.go: arguments of tools without an upper bound.
pub mod Walk
pub mod Run
use shingan.Prelude.{
  ℕ, suc, String, Bool, true, false, not, ◌==◌, ◌||◌, Option, none, some, List, [], ◌∷◌, ◌++◌,
  foldl, map, values, lookup, is_empty, length, leb, if◌then◌else◌,
}
use shingan.Prelude.Int.{pos}
use shingan.Domain.NodeType.{NodeType, tool, is_tool}
use shingan.Domain.Value.{
  Value, int, int32, int64, float32, float64, text, object, Float, Fields, end, field,
}
use shingan.Domain.Float.{of_ℤ, exceeds, rounded}
use shingan.Domain.Finding.{
  Finding, warning, info, empty_finding, Message, lit, quoted, plain, number, heuristic_pattern,
}
use shingan.Domain.Graph.{Node, WorkflowGraph}
use shingan.Domain.Context.{RuleMeta, RuleContext, report, Listener, LocalRule, NodeHandler}

unfoldable pub meta : RuleMeta
meta = record { name = "unbounded_tool_arg"; severity = warning; fixable = false }

abbrev pub schema_config_keys : List String
schema_config_keys = "args_schema" ∷ "parameters" ∷ "input_schema" ∷ []

abbrev pub max_string_length_threshold : ℕ
max_string_length_threshold = 100000

abbrev pub max_findings_per_node : ℕ
max_findings_per_node = 5

-- schema[key]
unfoldable pub lookup_field : String → Fields → Option Value
lookup_field key end = none
lookup_field key (field k v rest) = if k == key then some v else lookup_field key rest

-- The type switch of `numericKey`.
unfoldable pub numeric : Option Value → Option Float
unfolding of_ℤ
numeric (some (float64 x)) = some x
numeric (some (float32 x)) = some x
numeric (some (int n)) = some (of_ℤ n)
numeric (some (int32 n)) = some (of_ℤ n)
numeric (some (int64 n)) = some (of_ℤ n)
numeric _ = none

unfoldable pub numeric_key : Fields → String → Option Float
unfolding numeric lookup_field
numeric_key schema key = numeric (lookup_field key schema)

abbrev pub has_numeric_key : Fields → String → Bool
has_numeric_key schema key = elim (numeric_key schema key) [ none ↦ false | some _ ↦ true ]

-- schema["type"].(string), or the empty string.
unfoldable pub type_of : Fields → String
unfolding lookup_field
type_of schema = elim (lookup_field "type" schema) [ some (text s) ↦ s | _ ↦ "" ]

-- Where a field stands, and its schema.
abbrev pub Field : Type 0
Field = String × Fields

abbrev about : String → String → String → Message → Message
about id path kind rest =
    lit "Tool node " ∷ quoted id ∷ lit " schema field " ∷ quoted path ∷ lit " (" ∷ plain kind ∷ rest

unfoldable pub no_max_length : String → String → Finding
no_max_length id path = record empty_finding {
  rule_name = "unbounded_tool_arg";
  severity = warning;
  node_id = id;
  message =
      about id path "string"
        (lit ") has no maxLength — caller can blow up token usage with arbitrary input" ∷ []);
  suggestion =
      lit "Add `maxLength` to schema field "
      ∷ quoted path
      ∷ lit
          " (e.g. 4000) so attacker-controlled or LLM-generated payloads cannot trigger token / API failures."
      ∷ [];
  confidence = 70;
  confidence_reason = heuristic_pattern;
}

unfoldable pub long_max_length : String → String → Float → Finding
unfolding rounded
long_max_length id path v = record empty_finding {
  rule_name = "unbounded_tool_arg";
  severity = info;
  node_id = id;
  message = about id path "string" (
      lit ") has maxLength="
      ∷ number (rounded v)
      ∷ lit " which exceeds the "
      ∷ number (pos max_string_length_threshold)
      ∷ lit "-character soft limit — effectively unbounded"
      ∷ []);
  suggestion =
      lit "Reduce `maxLength` on schema field "
      ∷ quoted path
      ∷ lit " to a realistic upper bound (e.g. 4000-32000 characters)."
      ∷ [];
  confidence = 50;
  confidence_reason = heuristic_pattern;
}

unfoldable pub no_max_items : String → String → Finding
no_max_items id path = record empty_finding {
  rule_name = "unbounded_tool_arg";
  severity = warning;
  node_id = id;
  message =
      about id path "array" (lit ") has no maxItems — caller can submit an unbounded list" ∷ []);
  suggestion =
      lit "Add `maxItems` to schema field "
      ∷ quoted path
      ∷ lit " so the tool cannot be hammered with unboundedly large arrays."
      ∷ [];
  confidence = 70;
  confidence_reason = heuristic_pattern;
}

unfoldable pub no_maximum : String → String → String → Finding
no_maximum id path kind = record empty_finding {
  rule_name = "unbounded_tool_arg";
  severity = info;
  node_id = id;
  message = about id path kind (lit ") has no maximum — consider bounding numeric inputs" ∷ []);
  suggestion =
      lit "Add `maximum` to schema field "
      ∷ quoted path
      ∷ lit " to reject unrealistically large numeric arguments."
      ∷ [];
  confidence = 40;
  confidence_reason = heuristic_pattern;
}

-- The case of a string in `classifyField`.
unfoldable pub string_finding : String → Field → Option Finding
unfolding numeric_key exceeds no_max_length long_max_length
string_finding id (path, schema) = elim (numeric_key schema "maxLength") [
  | none ↦ some (no_max_length id path)
  | some v ↦
      if exceeds v max_string_length_threshold then some (long_max_length id path v) else none
]

-- The switch of `classifyField`: what it appends, if anything.
unfoldable pub field_finding : String → Field → Option Finding
unfolding string_finding numeric_key no_max_items no_maximum type_of
field_finding id (path, schema) =
    let kind = type_of schema in
    if kind == "string"
    then string_finding id (path, schema)
    else if kind == "array"
    then (if has_numeric_key schema "maxItems" then none else some (no_max_items id path))
    else if kind == "number" || kind == "integer"
    then (if has_numeric_key schema "maximum" then none else some (no_maximum id path kind))
    else none

abbrev pub is_full : List Finding → Bool
is_full fs = leb max_findings_per_node (length fs)
