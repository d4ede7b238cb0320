-- ===== src/Rules/Cycle/Tests.antt =====
-- The rule on sample workflows, and each theorem at one of them.
use mathlib.Core.List.Memᴰ
use mathlib.Core.List.Permᴰ
use shingan.Prelude.{
  String, ◌≡◌, ◌≢◌, refl, sym, subst, some, [], ◌∷◌, Memᴰ, contains, any, eq_iff, arith, lookup,
  insert, select,
}
use shingan.Prelude.Text.{str_ltb}
use shingan.Prelude.Sort.{sort}
use shingan.Domain.Finding.{Finding}
use shingan.Domain.Graph.{outgoing_edges}
use shingan.Domain.Config.{get_max_iterations, raw_config_value}
use shingan.Rules.LoopGuard.{is_loop_node}
use shingan.Rules.Cycle.{
  find_parent_control, from_first, cycle_has_exit, evaluate_cycle, edge_less, explore_to, explore,
  analyze,
}
use shingan.Rules.Cycle.Spec.{Cycle, IsGuarded, stay, go}
use shingan.Rules.Cycle.Correct.{explore_to_deeper, analyze_sound, analyze_complete}
use shingan.Rules.Cycle.Determinism.{SameGraph, analyze_deterministic}
use shingan.Samples.{edge, ring, ring_reversed, bounded_loop}

program : Unit {0}
unfolding analyze evaluate_cycle find_parent_control from_first cycle_has_exit edge_less
    outgoing_edges sort str_ltb contains any lookup insert select is_loop_node get_max_iterations
    raw_config_value
program = tt

ring_finding : Finding
unfolding program
ring_finding = evaluate_cycle ring "a" ("a" ∷ "b" ∷ [])

analyze-ring : analyze (some ring) ≡ ring_finding ∷ []
unfolding program ring_finding
analyze-ring = refl

analyze-bounded_loop : analyze (some bounded_loop) ≡ []
unfolding program
analyze-bounded_loop = refl

ring_finding_found : Memᴰ ring_finding (analyze (some ring))
ring_finding_found = subst (Memᴰ ring_finding) (sym analyze-ring) (Memᴰ.head refl)

analyze_sound_example : Cycle ring ring_finding.node_id
analyze_sound_example = analyze_sound ring ring_finding ring_finding_found

bounded-Cycle : Cycle bounded_loop "a"
bounded-Cycle = (
  "l",
  (edge "a" "l", Memᴰ.tail (Memᴰ.head refl), refl, refl, Memᴰ.tail (Memᴰ.head refl)),
  go "a" (edge "l" "a", Memᴰ.head refl, refl, refl, Memᴰ.head refl) (stay refl),
)

analyze_complete_example : IsGuarded bounded_loop "a"
analyze_complete_example =
    analyze_complete bounded_loop analyze-bounded_loop "a" (Memᴰ.head refl) bounded-Cycle

explore_to_deeper_example : explore_to ring 10 ≡ explore ring
explore_to_deeper_example = explore_to_deeper ring 10 (omega arith)

a_not_b : ◌≢◌ {A = String} "a" "b"
a_not_b = ground (arith, eq_iff "a" "b")

ring_same : SameGraph ring ring_reversed
ring_same = record {
  nodes = Permᴰ.swap refl refl;
  left_map = (λ m. a_not_b (Memᴰ.eq_of_singleton m), (λ m. Memᴰ.not-nil m, tt));
  right_map = (λ m. a_not_b (sym (Memᴰ.eq_of_singleton m)), (λ m. Memᴰ.not-nil m, tt));
  edges = Permᴰ.swap refl refl;
  entry = refl;
}

analyze_deterministic_example : analyze (some ring) ≡ analyze (some ring_reversed)
analyze_deterministic_example = analyze_deterministic ring ring_reversed ring_same
