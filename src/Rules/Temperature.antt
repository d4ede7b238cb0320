-- ===== src/Rules/Temperature.antt =====
-- domain/rules/temperature_misuse.go: temperatures on tasks that want one answer. The parameter
-- `parse_float` of several definitions is strconv.ParseFloat to 64 bits, its finite results only.
pub mod Laws
mod Tests
use shingan.Prelude.{
  ℕ, String, Bool, true, false, not, ◌&&◌, ◌||◌, ◌==◌, Option, none, some, List, [], ◌∷◌, any,
  collect, values, select, lookup, is_empty, if◌then◌else◌,
}
use shingan.Prelude.Text.{codes}
use shingan.Prelude.Words.{to_lower, has_word, same_codes}
use shingan.Domain.NodeType.{NodeType, llm, is_llm}
use shingan.Domain.Value.{Value, boolean, float64, Float}
use shingan.Domain.Float.{exceeds, exceeds_part}
use shingan.Domain.Finding.{
  Finding, Severity, Message, warning, info, empty_finding, lit, quoted, plain, value,
  exact_static_match, heuristic_pattern,
}
use shingan.Domain.Graph.{Node, WorkflowGraph}
use shingan.Domain.Config.{get_temperature}
use shingan.Domain.Context.{RuleMeta, RuleContext, report, Listener, LocalRule, NodeHandler}
use shingan.Rules.CircularAgents.{string_config}

unfoldable meta : RuleMeta
meta = record { name = "temperature_misuse"; severity = warning; fixable = true }

-- The flag of `boolConfig` is whether the result is `some`.
unfoldable pub bool_config : Node → String → Option Bool
unfolding lookup
bool_config n key = elim (lookup key n.config) [ some (boolean b) ↦ some b | _ ↦ none ]

abbrev is_set : Option Bool → Bool
is_set none = false
is_set (some b) = b

-- The cases of the switch on the task, whose value is in lower case.
unfoldable pub named_category : List ℕ → String
unfolding same_codes any codes
named_category task =
    let is_any = any (λ w. same_codes (codes w) task) in
    if is_any ("extraction" ∷ "extract" ∷ [])
    then "extraction"
    else if is_any ("classification" ∷ "classify" ∷ [])
    then "classification"
    else if is_any ("structured_output" ∷ "structured-output" ∷ "json" ∷ "json_output" ∷ [])
    then "structured_output"
    else if is_any ("code_generation" ∷ "code-gen" ∷ "codegen" ∷ [])
    then "code_generation"
    else ""

unfoldable pub category_of_name : List ℕ → String
unfolding has_word codes
category_of_name name =
    if has_word name (codes "extract")
    then "extraction"
    else if has_word name (codes "classif")
    then "classification"
    else if has_word name (codes "code_gen") || has_word name (codes "codegen")
    then "code_generation"
    else ""

-- An empty task has no case in the switch either.
unfoldable pub task_category : Node → String
unfolding named_category category_of_name string_config to_lower
task_category n =
    let named = named_category (to_lower (string_config n "task")) in
    if named == "" then category_of_name (to_lower n.name) else named

abbrev pub advice : String
advice =
    "Set `temperature` to 0 for deterministic tasks. High temperature produces output variability that defeats structured extraction/classification."

abbrev misuse : String → Severity → ℕ → String → Message → Finding
misuse id severity confidence reason message = record empty_finding {
  rule_name = "temperature_misuse";
  severity = severity;
  node_id = id;
  message = lit "node " ∷ quoted id ∷ message;
  suggestion = lit advice ∷ [];
  confidence = confidence;
  confidence_reason = reason;
}

-- The temperature is printed by `%.2f`.
unfoldable pub schema_finding : String → Float → String → Finding
schema_finding id t detail = misuse id warning 90 exact_static_match (
    lit " sets temperature="
    ∷ value (float64 t)
    ∷ lit " while "
    ∷ plain detail
    ∷ lit " is enabled — schema-bound output requires a deterministic decode."
    ∷ [])

unfoldable pub classification_finding : String → Float → Finding
classification_finding id t = misuse id warning 70 heuristic_pattern (
    lit " is a classification task but uses temperature="
    ∷ value (float64 t)
    ∷ lit " (>0.3) — class probabilities become unstable across runs."
    ∷ [])

unfoldable pub code_finding : String → Float → Finding
code_finding id t = misuse id warning 70 heuristic_pattern (
    lit " is a code_generation task but uses temperature="
    ∷ value (float64 t)
    ∷ lit " — non-zero temperature causes drift across compilable variants."
    ∷ [])

unfoldable pub extraction_finding : String → Float → Finding
extraction_finding id t = misuse id info 50 heuristic_pattern (
    lit " is an extraction/structured_output task but uses temperature="
    ∷ value (float64 t)
    ∷ lit " — extracted fields may differ between runs."
    ∷ [])

abbrev pub is_positive : Float → Bool
is_positive t = exceeds t 0

-- t > 0.3: the float64 0.3 is 5404319552844595 / 2 ^ 54.
abbrev pub is_warm : Float → Bool
is_warm t = exceeds_part t 5404319552844595 54

abbrev pub is_structured : Node → Bool
is_structured n = is_set (bool_config n "structured_output")

abbrev pub is_json : Node → Bool
is_json n = string_config n "response_format" == "json_object"

abbrev pub detail : Node → String
detail n =
    if not (is_structured n) && is_json n
    then "response_format=json_object"
    else "structured_output"

-- The switch on the task of a node with a temperature.
unfoldable pub task_finding : String → Float → String → Option Finding
unfolding exceeds exceeds_part classification_finding code_finding extraction_finding
task_finding id t task =
    if task == "classification"
    then (if is_warm t then some (classification_finding id t) else none)
    else if task == "code_generation"
    then (if is_positive t then some (code_finding id t) else none)
    else if task == "extraction" || task == "structured_output"
    then (if is_positive t then some (extraction_finding id t) else none)
    else none

unfoldable pub check_temperature : Node → Float → Option Finding
unfolding task_finding bool_config string_config schema_finding exceeds task_category
check_temperature n t =
    if is_positive t && (is_structured n || is_json n)
    then some (schema_finding n.id t (detail n))
    else task_finding n.id t (task_category n)

module _ (parse_float : String → Option Float) where
  unfoldable pub evaluate_temperature_misuse : Node → Option Finding
  unfolding get_temperature check_temperature
  evaluate_temperature_misuse n = elim (get_temperature parse_float n) [
    | none ↦ none
    | some t ↦ check_temperature n t
  ]

  unfoldable handle : NodeHandler
  unfolding evaluate_temperature_misuse report
  handle c n = elim (evaluate_temperature_misuse n) [ some f ↦ report c f | none ↦ c ]

  abbrev handlers : NodeType → Option NodeHandler
  handlers llm = some handle
  handlers _ = none

  unfoldable listener : RuleContext → Listener
  unfolding handle
  listener c = record { on_node = handlers; on_any = none; on_edge = none; on_graph = none }

  unfoldable pub local_rule : LocalRule
  unfolding meta listener
  local_rule = record { meta = meta; listener = listener }

  unfoldable pub analyze : Option WorkflowGraph → List Finding
  unfolding collect evaluate_temperature_misuse select is_llm
  analyze none = []
  analyze (some g) =
      if is_empty g.nodes
      then []
      else collect evaluate_temperature_misuse (select (λ n. is_llm n.type) (values g.nodes))
