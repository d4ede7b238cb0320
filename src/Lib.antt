-- ===== src/Lib.antt =====
-- Shingan: the analysis core of a linter for agent workflows.
--
-- A parser turns the source of an agent framework into a workflow graph (domain/graph.go). Rules
-- (domain/rules) look for defects in it and report findings. The orchestrator (application) sorts
-- the rules into tiers, runs each tier by its walker, merges and orders the findings, and over
-- several files drops what comments, node settings and the policy switch off.
--
-- Which file models which part:
--   Domain/NodeType, Graph    domain/graph.go: node types with their names, nodes, edges, graphs;
--                             OutgoingEdges is `outgoing_edges`, UnmarshalJSON is `of_json`
--   Domain/Value, Config      the values of a node's Config and domain/node_config.go
--   Domain/Float              conversions and comparisons of floats
--   Domain/Finding            domain/finding.go
--   Domain/Context            domain/rule.go and domain/visitor.go: the contracts of the rules, and
--                             RuleContext with Report (`report`) and Findings (`drain`)
--   Domain/Baseline           domain/baseline.go: Contains is `in_baseline`
--   Rules/Reachability        domain/rules/reachability.go: `ai_reverse`, `visit`, `expand` (the
--                             body of the loop), `run` (the loop), `analyze`
--   Rules/Cycle               domain/rules/cycle.go: `dfs` with `follow` and `back_edge` (the
--                             closure of Analyze), `explore` (its two searches), `evaluate_cycle`
--   Rules/LoopGuard           domain/rules/loopguard.go
--   Rules/MaxParallel         domain/rules/max_parallel_branches.go
--   Rules/ErrorHandler        domain/rules/errorhandler.go: `check_tool` and `check_llm` are the bodies
--                             of the two loops of runErrorHandlerChecks
--   Rules/RetryStorm          domain/rules/retry_storm.go: `estimate_parallelism`, `mul_int` (the
--                             product on int), `check_source`
--   Rules/CircularAgents      domain/rules/circular_dep_agents.go: `dfs` with `scan` is its closure,
--                             `check_source` the body of its loop over the agents
--   Rules/Redundant           domain/rules/redundant.go: Analyze; `group_node` is the body of its loop
--   Rules/HumanGate           domain/rules/human_gate_missing.go, with findDeploySignal of
--                             domain/rules/missing_eval_dataset.go
--   Rules/EvalDataset         domain/rules/missing_eval_dataset.go: hasEvalSignal is `has_eval_signal`
--   Rules/ToolDescription     domain/rules/tool_description_missing.go: `is_described` is the loop over
--                             the keys
--   Rules/Cost                domain/rules/cost.go: `dfs` with `step` is the closure of nodesInLoops,
--                             `check_cost` the body of the loop of runCostChecks
--   Rules/Temperature         domain/rules/temperature_misuse.go
--   Rules/ToolArg             domain/rules/unbounded_tool_arg.go: classifyField and walkSchema in
--                             ToolArg/Walk, the rule in ToolArg/Run
--   Rules/Registry            domain/rules/registry.go
--   Plugin                    plugin/plugin.go: Register is `register`; in Plugin/Sdk
--                             plugin/sdk_version.go; IsDev of version/version.go
--   Application/Walker        application/walker.go
--   Application/PathWalker    application/path_walker.go
--   Application/Orchestrator  application/orchestrator.go (`analyze`, `classify`, `finding_less`)
--                             and application/global_walker.go
--   Application/Policy        application/policy.go: ApplyPolicy and what it calls; in
--                             Policy/Plugins VerifyRequiredPlugins
--   Application/Ignore        application/ignore.go: LoadIgnoreIndex, Suppressed and
--                             FilterIgnoredFindings
--   Application/Multi         AnalyzeMulti and filterByNodeIgnoreMeta of orchestrator.go;
--                             MakeGraphPosResolver of ignore.go
--   Infrastructure/Cache      infrastructure/cache/sha256_lru.go: `get`, `add`, `len`; Cache/ListLru is a
--                             list that can stand for simplelru
--   Infrastructure/N8n        infrastructure/parser/n8n.go: Parse is `parse`; its passes are `build_table`
--                             (NodeTable), `resolve_edges` (Edges) and `enter`, with Entry and Kind
--   Cli/Analyze, Load,        cli/analyze.go: executeAnalyze is `execute_analyze`, its steps are `check_policy`,
--     Changed, Filters        `resolve_since`, `load_and_analyze`, `compare_and_save` and `save_and_emit`
--   Cli/Format                cli/detect.go, cli/defaults.go
--   Prelude, Samples          shared lists, maps, sorting and texts; the workflows of the tests
--
-- How the model reads the code:
--   A map is a list of its entries in the order in which a range over it meets them, which Go leaves
--   open; a theorem about any graph is about any such order. A nil map reads as an empty one.
--   Strings are valid UTF-8, so that Go's order of bytes is the order of the code points.
--   Line and column numbers are natural numbers, with 0 for an unknown position.
--   A confidence counts hundredths. A message is the list of the literal parts and the values that
--   fmt.Sprintf joins; the joining itself is left out. A float is a finite
--   one; int of one that 64 bits do not hold, which Go leaves open, is -2^63, as on amd64.
--   A handler that changes its context returns the new one. Goroutines are their batches of findings,
--   in an order that an arbitrary scheduler picks; a batch is added whole, under the mutex.
--   sort.Slice is a stable insertion sort; for the order of edges, where it need not be stable in Go,
--   edges that compare alike are equal.
--   The search of Reachability runs on fuel, one round for each node, and the closure `dfs` of Cycle
--   on the number of nodes as its depth; that both are enough is among the results below. The closure
--   `dfs` of Cost has that depth too, since each call inside another is at one more node in progress;
--   `dfs` of CircularAgents may call itself once more than there are nodes, which is as deep as a path
--   without repetitions goes: its result has no condition on the depth.
--   Parameters stand for what the code calls elsewhere: doublestar.Match, the regular expression of an
--   ignore marker (its groups 1 and 2), the reading of a file into lines, the digest of a message
--   (of its parts, or of its text),
--   the finite results of strconv.ParseFloat, and
--   golang.org/x/mod/semver with the version of the binary; SHA-256 and simplelru, whose documented
--   behaviour is the laws of the record `Lru`. Clock readings are nanoseconds less than 292 years
--   apart, so that their difference is exact.
--   strings.ToLower is exact where ASCII letters come out of it, which is all that is looked for.
--   A count of edges is below 2^63; only the product in RetryStorm is taken modulo 2^64, as Go does.
--
-- Not modelled: the other parsers and their helper scripts, reporters, the files of baselines, the set-up
-- of the command line, its other commands and the servers; of the rules those not named above, and of
-- redundant.go the Listener, whose two handlers share a map; of temperature_misuse.go floatConfig, which
-- nothing calls; of policy.go the files it reads and the text of an error; of plugin/ the helpers for
-- authors.
pub mod Prelude
pub mod Domain
pub mod Rules
pub mod Samples
pub mod Application
pub mod Plugin
pub mod Infrastructure
pub mod Cli
