-- ===== src/Rules/LoopGuard/Tests.antt =====
-- The rule on a loop without a bound.
use shingan.Prelude.{◌≡◌, refl, some, [], ◌∷◌, map, lookup}
use shingan.Domain.Config.{get_max_iterations}
use shingan.Application.Walker.{walk}
use shingan.Rules.LoopGuard.{local_rule, analyze}
use shingan.Rules.LoopGuard.Laws.{walk-eq-analyze}
use shingan.Samples.{looping, bounded_loop}

analyze-looping : map (λ f. f.node_id) (analyze (some looping)) ≡ "l" ∷ []
unfolding analyze get_max_iterations lookup
analyze-looping = refl

analyze-bounded : analyze (some bounded_loop) ≡ []
unfolding analyze get_max_iterations lookup
analyze-bounded = refl

walk-eq-analyze_example : walk (some looping) (local_rule ∷ []) ≡ analyze (some looping)
walk-eq-analyze_example = walk-eq-analyze (some looping)
