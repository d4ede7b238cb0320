-- ===== src/Application/Multi.antt =====
-- application/orchestrator.go, AnalyzeMulti: the analysis of the graphs of several files, less what
-- comments and node settings suppress, under a policy.
pub mod Laws
pub mod Schedules
mod Tests
use mathlib.Core.List.{flatten}
use shingan.Prelude.{
  ℕ, String, Bool, true, false, not, ◌&&◌, ◌||◌, ◌==◌, Option, none, some, List, [], ◌∷◌, ◌++◌, map,
  foldl, any, select, Dict, insert, lookup, is_empty, if◌then◌else◌,
}
use shingan.Prelude.Sort.{sort}
use shingan.Domain.Value.{Value, Items, text, texts, array, nil, item}
use shingan.Domain.Finding.{Finding}
use shingan.Domain.Graph.{Node, WorkflowGraph}
use shingan.Domain.Context.{AnalysisRule}
use shingan.Application.Walker.{no_rules}
use shingan.Application.Orchestrator.{Scheduler, finding_less, analyze}
use shingan.Application.Policy.{Policy, apply_policy}
use shingan.Application.Ignore.{filter_ignored_findings}

pub record GraphWithSource : Type 0 where
  pub graph : Option WorkflowGraph
  pub source_file : String

abbrev is_rule_or_star : String → String → Bool
is_rule_or_star rule s = s == "*" || s == rule

any_item : String → Items → Bool
any_item rule nil = false
any_item rule (item (text s) rest) = is_rule_or_star rule s || any_item rule rest
any_item rule (item _ rest) = any_item rule rest

-- The type switch over the value of `_shingan_ignore`.
unfoldable pub node_meta_suppresses : Value → String → Bool
unfolding any_item
node_meta_suppresses (text s) rule = is_rule_or_star rule s
node_meta_suppresses (texts ss) rule = any (is_rule_or_star rule) ss
node_meta_suppresses (array items) rule = any_item rule items
node_meta_suppresses _ rule = false

abbrev pub Sources : Type 0
Sources = Dict WorkflowGraph

-- The node that a finding is about, in the graph of its file.
unfoldable pub node_of : Sources → String → String → Option Node
node_of sources file node = elim (lookup file sources) [
  | some g ↦ lookup node g.nodes
  | none ↦ none
]

unfoldable pub is_meta_ignored : Sources → Finding → Bool
unfolding node_of node_meta_suppresses
is_meta_ignored sources f = elim (node_of sources f.source_file f.node_id) [
  | none ↦ false
  | some n ↦ elim (lookup "_shingan_ignore" n.config) [
    | none ↦ false
    | some raw ↦ node_meta_suppresses raw f.rule_name
  ]
]

-- filterByNodeIgnoreMeta
unfoldable pub filter_by_node_ignore_meta : List Finding → Sources → List Finding
unfolding is_meta_ignored select
filter_by_node_ignore_meta findings sources = select (λ f. not (is_meta_ignored sources f)) findings

-- The position of a node, by the graph of its file.
unfoldable pub resolve_pos : Sources → String → String → String × ℕ
unfolding node_of
resolve_pos sources file node = elim (node_of sources file node) [
  | none ↦ (file, 0)
  | some n ↦ (if n.pos.file == "" then file else n.pos.file, n.pos.line)
]

-- The graph of each file; the last of a name stays.
unfoldable pub add_source : Sources → GraphWithSource → Sources
add_source sources input = elim input.graph [
  | some g ↦ insert input.source_file g sources
  | none ↦ sources
]

unfoldable pub graphs_by_source : List GraphWithSource → Sources
unfolding add_source
graphs_by_source inputs = foldl add_source [] inputs

abbrev pub stamp : String → Finding → Finding
stamp file f = record f { source_file = file }

module _ (s : Scheduler) where
  unfoldable pub analyze_inputs : List GraphWithSource → List AnalysisRule → List Finding
  analyze_inputs [] rules = []
  analyze_inputs (input ∷ inputs) rules =
      let rest = analyze_inputs inputs rules in
      elim input.graph [
        | some g ↦ map (stamp input.source_file) (analyze s (some g) rules) ++ rest
        | none ↦ rest
      ]

  -- The regular expression and the files of the ignore comments, and the glob matcher of the policy.
  module _ (marker : String → Option (String × String)) (open_lines : String → Option (List String))
      (glob : String → String → Bool) where
    -- What stays of the findings of all inputs, before the last sort.
    unfoldable pub kept : Option Policy → List GraphWithSource → List AnalysisRule → List Finding
    unfolding analyze_inputs graphs_by_source resolve_pos filter_by_node_ignore_meta
    kept policy inputs rules =
        let sources = graphs_by_source inputs in
        let heeded =
          filter_ignored_findings marker open_lines (resolve_pos sources)
            (analyze_inputs inputs rules) in
        apply_policy glob (filter_by_node_ignore_meta heeded sources) policy

    unfoldable pub analyze_multi :
        Option Policy → List GraphWithSource → List AnalysisRule → List Finding
    unfolding kept finding_less
    analyze_multi policy inputs rules =
        if no_rules inputs || no_rules rules
        then []
        else sort finding_less (kept policy inputs rules)

-- ignore.go, MakeGraphPosResolver: the same for one graph, whatever file the caller names.
unfoldable pub make_graph_pos_resolver :
    String → Option WorkflowGraph → String → String → String × ℕ
make_graph_pos_resolver source_file none file node = (source_file, 0)
make_graph_pos_resolver source_file (some g) file node = elim (lookup node g.nodes) [
  | none ↦ (source_file, 0)
  | some n ↦ (if n.pos.file == "" then source_file else n.pos.file, n.pos.line)
]
