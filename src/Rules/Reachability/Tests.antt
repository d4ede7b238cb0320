-- ===== src/Rules/Reachability/Tests.antt =====
-- The rule on a sample workflow, and each theorem at it.
use shingan.Prelude.{
  String, ◌≡◌, refl, ◌↔◌, true, some, [], ◌∷◌, map, Memᴰ, contains, eq_iff, arith, lookup, insert,
  select,
}
use shingan.Domain.Graph.{outgoing_edges}
use shingan.Rules.Reachability.{ai_reverse, search, analyze}
use shingan.Rules.Reachability.Spec.{HasNode, Reach}
use shingan.Rules.Reachability.Correct.{search_correct}
use shingan.Rules.Reachability.Report.{HasEntry, analyze-unreachable}
use shingan.Samples.{agent}

-- The memory is found through its port, and only `x` is reported.
analyze-agent : map (λ f. f.node_id) (analyze (some agent)) ≡ "x" ∷ []
unfolding analyze outgoing_edges contains lookup insert select ai_reverse
analyze-agent = refl

agent-HasEntry : HasEntry agent
agent-HasEntry = record { named = ground (arith, eq_iff "a" ""); is_node = Memᴰ.head refl }

search_correct_example :
    ((search agent).queue ≡ [])
    × ((v : String) → (contains (search agent).visited v ≡ true) ↔ ∥ Reach agent v ∥₁)
search_correct_example = search_correct agent (Memᴰ.head refl)

analyze-unreachable_example :
    Memᴰ "x" (map (λ f. f.node_id) (analyze (some agent)))
    ↔ (HasNode agent "x" × ¬ ∥ Reach agent "x" ∥₁)
analyze-unreachable_example = analyze-unreachable agent agent-HasEntry "x"
