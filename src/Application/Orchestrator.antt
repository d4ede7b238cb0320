-- ===== src/Application/Orchestrator.antt =====
-- application/orchestrator.go and global_walker.go: the rules of each tier, the merge of what they
-- report, and the order of a report. Goroutines add their batches in an order that the scheduler
-- picks; each batch is added whole, under the lock.
pub mod Order
pub mod Laws
mod Tests
use mathlib.Core.List.{Permᴰ, flatten}
use shingan.Prelude.{
  ℕ, String, Bool, true, false, not, ◌==◌, Option, none, some, List, [], ◌∷◌, ◌++◌, map, foldl,
  Dict, insert, lookup, is_empty, ltb, nat_eq, if◌then◌else◌,
}
use shingan.Prelude.Text.{str_ltb}
use shingan.Prelude.Sort.{sort}
use shingan.Domain.Finding.{Finding, rank}
use shingan.Domain.Graph.{WorkflowGraph}
use shingan.Domain.Context.{LocalRule, PathRule, GlobalRule, AnalysisRule}
use shingan.Application.Walker.{walk, no_rules}
use shingan.Application.PathWalker.{run_path_rule}

-- The four buckets of `classify`.
pub record Tiers : Type 0 where
  pub locals : List LocalRule
  pub paths : List PathRule
  pub globals : List GlobalRule
  pub legacy : List AnalysisRule

abbrev pub no_tiers : Tiers
no_tiers = record { locals = []; paths = []; globals = []; legacy = [] }

-- The type switch: Global before Path before Local.
unfoldable pub place_as :
    Option GlobalRule → Option PathRule → Option LocalRule → AnalysisRule → Tiers → Tiers
place_as (some v) _ _ r t = record t { globals = v ∷ t.globals }
place_as none (some v) _ r t = record t { paths = v ∷ t.paths }
place_as none none (some v) r t = record t { locals = v ∷ t.locals }
place_as none none none r t = record t { legacy = r ∷ t.legacy }

unfoldable pub classify : List AnalysisRule → Tiers
unfolding place_as
classify [] = no_tiers
classify (r ∷ rules) = place_as r.as_global r.as_path r.as_local r (classify rules)

-- The order in which concurrent batches arrive.
pub record Scheduler : Type 0 where
  pub arrange : List (List Finding) → List (List Finding)
  pub arrange-perm : (batches : List (List Finding)) → Permᴰ (arrange batches) batches

-- findingLess
unfoldable pub finding_less : Finding → Finding → Bool
finding_less a b =
    if not (nat_eq (rank a.severity) (rank b.severity))
    then ltb (rank b.severity) (rank a.severity)
    else if not (nat_eq a.confidence b.confidence)
    then ltb b.confidence a.confidence
    else if not (a.rule_name == b.rule_name)
    then str_ltb a.rule_name b.rule_name
    else if not (a.source_file == b.source_file)
    then str_ltb a.source_file b.source_file
    else str_ltb a.node_id b.node_id

-- messageTemplateIDs: the last rule of a name decides.
unfoldable pub add_template : Dict String → AnalysisRule → Dict String
add_template m r = elim r.message_template [
  | none ↦ m
  | some id ↦ if id == "" then m else insert r.name id m
]

unfoldable pub message_template_ids : List AnalysisRule → Dict String
unfolding add_template
message_template_ids rules = foldl add_template [] rules

-- A zero confidence counts as certain, and a finding without a template gets that of its rule.
unfoldable pub normalize : Dict String → Finding → Finding
normalize templates f =
    let g = record f { confidence = if nat_eq f.confidence 0 then 100 else f.confidence } in
    if g.message_template_id == ""
    then elim (lookup g.rule_name templates) [
      | some id ↦ record g { message_template_id = id }
      | none ↦ g
    ]
    else g

module _ (s : Scheduler) where
  -- GlobalWalker.Walk
  unfoldable pub walk_globals : Option WorkflowGraph → List GlobalRule → List Finding
  walk_globals g rules = flatten (s.arrange (map (λ r. r.analyze_global g) rules))

  -- PathWalker.Walk
  unfoldable pub walk_paths : Option WorkflowGraph → List PathRule → List Finding
  walk_paths none rules = []
  walk_paths (some g) rules =
      if is_empty g.nodes then [] else flatten (s.arrange (map (run_path_rule g) rules))

  -- What the passes add: one batch for each walker, and one for each legacy rule.
  unfoldable pub batches : Option WorkflowGraph → Tiers → List (List Finding)
  unfolding walk_globals walk_paths
  batches g t =
      walk_globals g t.globals
      ∷ walk g t.locals
      ∷ walk_paths g t.paths
      ∷ map (λ r. r.analyze g) t.legacy

  unfoldable pub analyze : Option WorkflowGraph → List AnalysisRule → List Finding
  unfolding batches classify finding_less normalize message_template_ids
  analyze g rules =
      if no_rules rules
      then []
      else let combined = flatten (s.arrange (batches g (classify rules))) in
        sort finding_less (map (normalize (message_template_ids rules)) combined)
