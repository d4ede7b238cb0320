-- ===== src/Domain/Config.antt =====
-- domain/node_config.go: typed settings of a node, with the legacy Config map behind them.
use shingan.Prelude.{String, ◌==◌, Option, none, some, lookup, if◌then◌else◌}
use shingan.Prelude.Int.{ℤ}
use shingan.Prelude.Text.{atoi}
use shingan.Domain.Value.{
  Value, Float, Config, null, int, int32, int64, float32, float64, text, to_int,
}
use shingan.Domain.Float.{of_ℤ}
use shingan.Domain.Graph.{Node}

-- The type switch of `configInt`.
unfoldable pub int_of_value : Value → Option ℤ
unfolding to_int atoi
int_of_value (int n) = some n
int_of_value (int32 n) = some n
int_of_value (int64 n) = some n
int_of_value (float32 x) = some (to_int x)
int_of_value (float64 x) = some (to_int x)
int_of_value (text s) = atoi s
int_of_value _ = none

unfoldable pub config_int : Config → String → Option ℤ
config_int cfg key = elim (lookup key cfg) [ none ↦ none | some v ↦ int_of_value v ]

unfoldable pub config_string : Config → String → String
config_string cfg key = elim (lookup key cfg) [ some (text s) ↦ s | _ ↦ "" ]

or_config : Option ℤ → Config → String → Option ℤ
or_config none cfg key = config_int cfg key
or_config (some n) cfg key = some n

unfoldable pub get_max_iterations : Node → Option ℤ
unfolding or_config config_int
get_max_iterations n = or_config n.max_iterations n.config "max_iterations"

unfoldable pub get_max_concurrency : Node → Option ℤ
unfolding or_config config_int
get_max_concurrency n = or_config n.max_concurrency n.config "max_concurrency"

unfoldable pub get_model_name : Node → String
get_model_name n = if n.model_name == "" then config_string n.config "model" else n.model_name

unfoldable pub get_tool_category : Node → String
get_tool_category n =
    if n.tool_category == "" then config_string n.config "category" else n.tool_category

-- rules/cycle.go, rawConfigValue: the value of a key that is present and not nil.
unfoldable pub raw_config_value : Node → String → Option Value
raw_config_value n key = elim (lookup key n.config) [
  | none ↦ none
  | some null ↦ none
  | some v ↦ some v
]

-- The type switch of `configFloat`; `parse_float` is strconv.ParseFloat.
unfoldable pub float_of_value : (String → Option Float) → Value → Option Float
unfolding of_ℤ
float_of_value parse_float (float64 x) = some x
float_of_value parse_float (float32 x) = some x
float_of_value parse_float (int n) = some (of_ℤ n)
float_of_value parse_float (int32 n) = some (of_ℤ n)
float_of_value parse_float (int64 n) = some (of_ℤ n)
float_of_value parse_float (text s) = parse_float s
float_of_value parse_float _ = none

unfoldable pub config_float : (String → Option Float) → Config → String → Option Float
unfolding float_of_value
config_float parse_float cfg key = elim (lookup key cfg) [
  | none ↦ none
  | some v ↦ float_of_value parse_float v
]

unfoldable pub get_temperature : (String → Option Float) → Node → Option Float
unfolding config_float
get_temperature parse_float n = elim n.temperature [
  | none ↦ config_float parse_float n.config "temperature"
  | some t ↦ some t
]
