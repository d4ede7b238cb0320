-- ===== src/Application/Ignore/Tests.antt =====
-- A file with one marker, and each theorem at it.
use shingan.Prelude.{
  ℕ, String, true, not, ◌==◌, ◌≡◌, refl, Option, some, none, List, [], ◌∷◌, select, if◌then◌else◌,
  insert, lookup,
}
use shingan.Domain.Finding.{Finding, empty_finding}
use shingan.Application.Ignore.{suppressed, read_lines, empty_index, filter_ignored_findings}
use shingan.Application.Ignore.RuleList.{parse_rule_list}
use shingan.Application.Ignore.Laws.{marked, is_ignored, suppressed-eq-marked, filter-eq-select}

-- The marker of one kind of line.
abbrev sample_marker : String → Option (String × String)
sample_marker text =
    if text == "# shingan: ignore-next-line loop_guard"
    then some ("next-line", "loop_guard")
    else none

abbrev sample_lines : List String
sample_lines = "import agent" ∷ "# shingan: ignore-next-line loop_guard" ∷ "loop = LoopAgent()" ∷ []

abbrev sample_open : String → Option (List String)
sample_open path = if path == "app.py" then some sample_lines else none

abbrev sample_resolve : String → String → String × ℕ
sample_resolve file node = (file, 3)

abbrev sample_findings : List Finding
sample_findings =
    record empty_finding { rule_name = "loop_guard"; source_file = "app.py" }
    ∷ record empty_finding { rule_name = "pii_leak"; source_file = "app.py" }
    ∷ []

suppressed-eq-marked_example :
    suppressed (some (read_lines sample_marker 1 sample_lines empty_index)) "loop_guard" 3
    ≡ marked sample_marker "loop_guard" 3 1 sample_lines
suppressed-eq-marked_example = suppressed-eq-marked sample_marker "loop_guard" 3 sample_lines

filter-eq-select_example :
    filter_ignored_findings sample_marker sample_open sample_resolve sample_findings
    ≡ select (λ f. not (is_ignored sample_marker sample_open sample_resolve f)) sample_findings
filter-eq-select_example = filter-eq-select sample_marker sample_open sample_resolve sample_findings

sample_hidden :
    suppressed (some (read_lines sample_marker 1 sample_lines empty_index)) "loop_guard" 3 ≡ true
unfolding suppressed read_lines parse_rule_list lookup insert
sample_hidden = refl
