-- ===== src/Rules/ToolArg/Run/Tests.antt =====
-- A tool with six fields without a bound, of which five are reported, and one whose fields are bounded.
use mathlib.Core.List.{flat_map}
use shingan.Prelude.{String, ◌≡◌, refl, [], ◌∷◌, collect, length}
use shingan.Prelude.Take.{take}
use shingan.Prelude.Int.{pos}
use shingan.Domain.NodeType.{tool}
use shingan.Domain.Value.{Value, int, text, object, Fields, end, field}
use shingan.Domain.Graph.{Node}
use shingan.Rules.ToolArg.{field_finding, no_max_items, no_max_length, schema_config_keys}
use shingan.Rules.ToolArg.Run.{evaluate_unbounded_tool_arg}
use shingan.Rules.ToolArg.Run.Laws.{fields_at, evaluate-take}
use shingan.Samples.{bare_node}

abbrev of_type : String → Fields → Value
of_type kind rest = object (field "type" (text kind) rest)

abbrev with_schema : Value → Node
with_schema schema = record (bare_node "t" tool) { config = ("parameters", schema) ∷ [] }

abbrev bounded : Node
bounded = with_schema (
    of_type "array" (
      field "maxItems" (int (pos 3))
        (field "items" (of_type "string" (field "maxLength" (int (pos 100000)) end)) end)))

evaluate-bounded : evaluate_unbounded_tool_arg bounded ≡ []
unfolding evaluate_unbounded_tool_arg
evaluate-bounded = refl

abbrev nested : Node
nested =
    with_schema
      (of_type "array" (field "items" (of_type "string" (field "maxLength" (text "9") end)) end))

evaluate-nested :
    evaluate_unbounded_tool_arg nested
    ≡ no_max_items "t" "parameters" ∷ no_max_length "t" "parameters.items" ∷ []
unfolding evaluate_unbounded_tool_arg
evaluate-nested = refl

abbrev wide : Node
wide = with_schema (
    object (
      field "properties"
        (object (
          field "a" (of_type "string" end) (
            field "b" (of_type "array" (field "items" (of_type "number" end) end)) (
              field "c" (of_type "integer" end)
                (field "d" (of_type "string" end) (field "e" (of_type "array" end) end))))))
        end))

evaluate-wide : length (evaluate_unbounded_tool_arg wide) ≡ 5
unfolding evaluate_unbounded_tool_arg
evaluate-wide = refl

evaluate-take_example :
    evaluate_unbounded_tool_arg wide
    ≡ take 5 (collect (field_finding "t") (flat_map (fields_at wide) schema_config_keys))
evaluate-take_example = evaluate-take wide
