-- ===== src/Application/Walker/Tests.antt =====
-- A rule whose handlers for any node and for loops write down in which order they are called.
use mathlib.Core.List.{flat_map}
use shingan.Prelude.{String, ◌≡◌, refl, Option, none, some, false, [], ◌∷◌, map}
use shingan.Domain.NodeType.{NodeType, loop}
use shingan.Domain.Finding.{Finding, info, empty_finding}
use shingan.Domain.Context.{LocalRule, NodeHandler, report}
use shingan.Application.Walker.{walk}
use shingan.Application.Walker.Calls.{reports, walk-reports}
use shingan.Samples.{looping}

abbrev note : String → NodeHandler
note text c n = report c (record empty_finding { rule_name = text; node_id = n.id })

abbrev on_loops : NodeType → Option NodeHandler
on_loops loop = some (note "loop")
on_loops _ = none

abbrev noting : LocalRule
noting = record {
  meta = record { name = "noting"; severity = info; fixable = false };
  listener = λ _. record {
    on_node = on_loops;
    on_any = some (note "any");
    on_edge = none;
    on_graph = none;
  };
}

walk-noting :
    map (λ (f : Finding). f.rule_name) (walk (some looping) (noting ∷ []))
    ≡ "any" ∷ "loop" ∷ "any" ∷ []
unfolding walk report shingan.Domain.Context.drain shingan.Domain.Context.new_rule_context
walk-noting = refl

walk-reports_example :
    walk (some looping) (noting ∷ noting ∷ []) ≡ flat_map (reports looping) (noting ∷ noting ∷ [])
walk-reports_example = walk-reports looping (noting ∷ noting ∷ []) refl
