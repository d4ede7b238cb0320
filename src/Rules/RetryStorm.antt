-- ===== src/Rules/RetryStorm.antt =====
-- domain/rules/retry_storm.go: tools whose retries multiply with the parallelism around them.
pub mod Spec
pub mod Counts
pub mod Estimate
pub mod Report
mod Tests
use shingan.Prelude.{
  ℕ, suc, ◌-◌, ◌*◌, ◌%◌, ◌^◌, String, Bool, true, false, ◌==◌, Option, none, some, List, [], ◌∷◌,
  foldl, select, collect, values, lookup, is_empty, is_some, map_option, ◌&&◌, leb, ltb,
  if◌then◌else◌,
}
use shingan.Prelude.Int.{ℤ, pos, negsuc, neg_ℕ}
use shingan.Domain.NodeType.{NodeType, loop, is_tool}
use shingan.Domain.Value.{Value, Config, text}
use shingan.Domain.Finding.{
  Finding, Severity, critical, warning, info, Message, empty_finding, lit, quoted, plain, number,
  exact_static_match, heuristic_pattern,
}
use shingan.Domain.Graph.{Node, Edge, WorkflowGraph}
use shingan.Domain.Context.{RuleMeta, PathContext, PathRule}
use shingan.Domain.Config.{int_of_value, get_max_iterations, get_max_concurrency}

unfoldable pub meta : RuleMeta
meta = record { name = "retry_storm"; severity = warning; fixable = false }

-- The type switch of `intConfig`: that of the other settings, less the numerals in a text.
unfoldable pub int_of_number : Value → Option ℤ
unfolding int_of_value
int_of_number (text s) = none
int_of_number v = int_of_value v

unfoldable pub int_config : Node → String → Option ℤ
unfolding int_of_number
int_config n key = elim (lookup key n.config) [ none ↦ none | some v ↦ int_of_number v ]

abbrev retry_config_keys : List String
retry_config_keys = "retries" ∷ "max_retries" ∷ "retry_count" ∷ []

-- A count of at least the threshold, 3.
unfoldable pub enough : Option ℤ → Option ℕ
enough none = none
enough (some (negsuc _)) = none
enough (some (pos v)) = if leb 3 v then some v else none

-- The loop over the keys: the first count that is enough, and its key.
unfoldable pub first_count : Node → List String → Option (ℕ × String)
unfolding int_config enough
first_count n [] = none
first_count n (key ∷ keys) =
    let rest = first_count n keys in
    elim (enough (int_config n key)) [ some v ↦ some (v, key) | none ↦ rest ]

unfoldable pub retry_count : Node → Option (ℕ × String)
unfolding first_count
retry_count n = first_count n retry_config_keys

unfoldable pub is_source : Node → Bool
unfolding is_tool retry_count
is_source n = is_tool n.type && is_some (retry_count n)

unfoldable pub sources : WorkflowGraph → List Node
unfolding is_source
sources g = select is_source (values g.nodes)

unfoldable pub sinks : WorkflowGraph → List Node
sinks g = []

-- `if v, ok := …; ok && v > par { par = v }`; par starts at 1 and only grows.
unfoldable pub raise : ℕ → Option ℤ → ℕ
raise par none = par
raise par (some (negsuc _)) = par
raise par (some (pos v)) = if ltb par v then v else par

abbrev is_loop : NodeType → Bool
is_loop loop = true
is_loop _ = false

-- The two settings of a predecessor, if the graph has it.
unfoldable pub raise_by : ℕ → Option Node → ℕ
unfolding raise get_max_iterations get_max_concurrency
raise_by par none = par
raise_by par (some pred) =
    let looped = if is_loop pred.type then raise par (get_max_iterations pred) else par in
    raise looped (get_max_concurrency pred)

-- The body of the loop over the edges, on the estimate and the fan-in so far.
unfoldable pub scan_edge : WorkflowGraph → String → ℕ × ℕ → Edge → ℕ × ℕ
unfolding raise_by
scan_edge g id (par, fan_in) e =
    if e.to == id then (raise_by par (lookup e.from g.nodes), suc fan_in) else (par, fan_in)

unfoldable pub estimate_parallelism : WorkflowGraph → Node → ℕ
unfolding scan_edge
estimate_parallelism g src =
    let (par, fan_in) = foldl (scan_edge g src.id) (raise 1 (get_max_concurrency src), 0) g.edges in
    if ltb par fan_in then fan_in else par

-- a * b on Go's 64-bit int
unfoldable pub mul_int : ℕ → ℕ → ℤ
mul_int a b = let p = (a * b) % 2 ^ 64 in if ltb p (2 ^ 63) then pos p else neg_ℕ (2 ^ 64 - p)

pub record Grade : Type 0 where
  pub severity : Severity
  pub confidence : ℕ
  pub reason : String

-- The switch on the blast radius; `none` is its default branch.
unfoldable pub grade : ℤ → Option Grade
grade (negsuc _) = none
grade (pos blast) =
    if leb 100 blast
    then some (record { severity = critical; confidence = 90; reason = exact_static_match })
    else if leb 30 blast
    then some (record { severity = warning; confidence = 70; reason = heuristic_pattern })
    else if leb 10 blast
    then some (record { severity = info; confidence = 50; reason = heuristic_pattern })
    else none

abbrev suggest : ℕ → ℕ → ℤ → Message
suggest retries par blast =
    lit "retry "
    ∷ number (pos retries)
    ∷ lit " × parallelism "
    ∷ number (pos par)
    ∷ lit " = blast radius "
    ∷ number blast
    ∷ lit
        ". Consider exponential backoff (`backoff_factor`), a circuit breaker, or a shared rate limiter to avoid stampeding the upstream API."
    ∷ []

unfoldable pub storm_finding : String → String → ℕ → ℕ → ℤ → Grade → Finding
storm_finding id key retries par blast how = record empty_finding {
  rule_name = "retry_storm";
  severity = how.severity;
  node_id = id;
  message =
      lit "Tool node "
      ∷ quoted id
      ∷ lit " has "
      ∷ plain key
      ∷ lit "="
      ∷ number (pos retries)
      ∷ lit " with parallelism="
      ∷ number (pos par)
      ∷ lit " → blast radius "
      ∷ number blast
      ∷ [];
  suggestion = suggest retries par blast;
  confidence = how.confidence;
  confidence_reason = how.reason;
}

-- The body of the loop over the sources, after the retries are read.
unfoldable pub blast_finding : String → ℕ → Option (ℕ × String) → Option Finding
unfolding mul_int grade storm_finding
blast_finding id par none = none
blast_finding id par (some (retries, key)) =
    let blast = mul_int retries par in
    map_option (storm_finding id key retries par blast) (grade blast)

unfoldable pub check_source : WorkflowGraph → Node → Option Finding
unfolding blast_finding retry_count estimate_parallelism
check_source g src = blast_finding src.id (estimate_parallelism g src) (retry_count src)

unfoldable pub run_retry_storm_checks : WorkflowGraph → List Node → List Finding
unfolding check_source
run_retry_storm_checks g = collect (check_source g)

unfoldable pub propagate : PathContext → List Finding
unfolding run_retry_storm_checks
propagate c = run_retry_storm_checks c.graph c.sources

unfoldable pub path_rule : PathRule
unfolding meta sources sinks propagate
path_rule = record { meta = meta; sources = sources; sinks = sinks; propagate = propagate }

unfoldable pub analyze : Option WorkflowGraph → List Finding
unfolding run_retry_storm_checks sources
analyze none = []
analyze (some g) = if is_empty g.nodes then [] else run_retry_storm_checks g (sources g)
