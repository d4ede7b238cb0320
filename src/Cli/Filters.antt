-- ===== src/Cli/Filters.antt =====
-- cli/analyze.go: the filters over a report, and the exit code.
pub mod Laws
use shingan.Prelude.{
  ℕ, String, Bool, true, false, not, ◌||◌, ◌==◌, Option, none, some, List, [], ◌∷◌, map, foldl,
  Dict, insert, lookup, contains, select, leb, ltb, if◌then◌else◌,
}
use shingan.Domain.Finding.{Finding, Message, Severity, info, warning, critical}
use shingan.Domain.Graph.{Node, WorkflowGraph, is_zero}
use shingan.Domain.Baseline.{Baseline, in_baseline}
use shingan.Application.Multi.{GraphWithSource}
use shingan.Cli.Changed.{Paths, normalise_to_repo_relative}

unfoldable pub filter_by_confidence : List Finding → ℕ → List Finding
unfolding select
filter_by_confidence findings least = select (λ f. leb least f.confidence) findings

-- The rest of the loop, from a code of 0 or 1.
unfoldable pub exit_from : ℕ → List Finding → ℕ
exit_from code [] = code
exit_from code (f ∷ fs) = elim f.severity [
  | info ↦ exit_from code fs
  | warning ↦ exit_from (if ltb code 1 then 1 else code) fs
  | critical ↦ 2
]

unfoldable pub exit_code : List Finding → ℕ
unfolding exit_from
exit_code findings = exit_from 0 findings

unfoldable pub filter_new : (Message → String) → List Finding → Option Baseline → List Finding
unfolding select in_baseline
filter_new digest findings none = findings
filter_new digest findings (some b) = select (λ f. not (in_baseline digest (some b) f)) findings

-- bySrc: the nodes of each file, the last of a name.
unfoldable pub index_input : Dict (Dict Node) → GraphWithSource → Dict (Dict Node)
unfolding insert
index_input by_src input = elim input.graph [
  | none ↦ by_src
  | some g ↦ insert input.source_file g.nodes by_src
]

-- The loop over the index, in the order of the map.
unfoldable pub find_node : Dict (Dict Node) → String → Option Node
unfolding lookup
find_node [] id = none
find_node ((_, nodes) ∷ rest) id =
    let later = find_node rest id in elim (lookup id nodes) [ some n ↦ some n | none ↦ later ]

-- Whether the body of the loop over the findings keeps one.
unfoldable pub is_changed : Paths → List String → String → Dict (Dict Node) → Finding → Bool
unfolding contains normalise_to_repo_relative find_node is_zero
is_changed p changed_set root by_src f =
    if f.source_file == ""
    then elim (find_node by_src f.node_id) [
      | none ↦ true
      | some n ↦
          is_zero n.pos || contains changed_set (normalise_to_repo_relative p n.pos.file root)
    ]
    else contains changed_set (normalise_to_repo_relative p f.source_file root)

unfoldable pub filter_by_changed_files_multi :
    Paths → List Finding → List GraphWithSource → List String → String → List Finding
unfolding select is_changed index_input
filter_by_changed_files_multi p findings inputs [] root = []
filter_by_changed_files_multi p findings inputs (c ∷ cs) root =
    let by_src = foldl index_input [] inputs in
    select (is_changed p (map p.clean (c ∷ cs)) root by_src) findings
