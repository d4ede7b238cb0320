-- ===== src/Application/PathWalker/Tests.antt =====
-- The reverse adjacency of a sample workflow.
use shingan.Prelude.{◌≡◌, refl, [], ◌∷◌, map, insert, lookup, get_or}
use shingan.Domain.Graph.{Edge}
use shingan.Application.PathWalker.{build_reverse_adjacency}
use shingan.Samples.{agent}

reverse-agent :
    map (λ (e : Edge). e.from) (get_or "a" [] (build_reverse_adjacency agent)) ≡ "m" ∷ "x" ∷ []
unfolding build_reverse_adjacency lookup insert
reverse-agent = refl
