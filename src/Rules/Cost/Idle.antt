-- ===== src/Rules/Cost/Idle.antt =====
-- Between the searches nothing is in progress; what the whole search marks.
use mathlib.Core.List.Memᴰ
use shingan.Prelude.{
  ℕ, length, String, ◌≢◌, refl, inl, inr, List, [], ◌∷◌, foldl, Memᴰ, lookup, key_of_lookup, keys,
  Option-cases,
}
use shingan.Domain.Graph.{WorkflowGraph}
use shingan.Rules.Cycle.{in_progress}
use shingan.Rules.Cycle.Spec.{HasNode}
use shingan.Rules.Cycle.Search.{state_cases}
use shingan.Rules.Cost.{
  Loops, state_at, dfs, search_rest, no_loops, search_entry, loops_to, nodes_in_loops,
}
use shingan.Rules.Cost.Walks.{LeadsToCycle, Sound, IsStack, Searched, dfs-Visits}

module _ (g : WorkflowGraph) where
  -- Between the searches nothing is in progress.
  pub record IsIdle (s : Loops) : Type 0 where
    pub idle : (v : String) → state_at s v ≢ in_progress
    pub sound : Sound g s

  pub IsStack-empty : (s : Loops) (id : String) → IsIdle s → IsStack g s [] id
  IsStack-empty s id i = record {
    marked = λ v p. absurd (i.idle v p);
    leads = λ v m. absurd (Memᴰ.not-nil m);
    nodes = λ v m. absurd (Memᴰ.not-nil m);
  }

  IsIdle-Searched : (s t : Loops) → IsIdle s → Searched g s t → IsIdle t
  IsIdle-Searched s t i r = record {
    idle = λ v p. i.idle v (r.later.progress v p);
    sound = r.sound;
  }

  pub search_rest-IsIdle :
      (depth : ℕ) (s : Loops) (id : String)
      → HasNode g id
      → IsIdle s
      → IsIdle (search_rest g depth s id)
  unfolding search_rest
  search_rest-IsIdle depth s id node i = elim (state_cases (state_at s id)) [
    | inl new ↦
        rw (new, search_rest)
          (IsIdle-Searched s (dfs g depth id [] s) i
            (dfs-Visits g depth id [] s new node i.sound (IsStack-empty s id i)))
    | inr (inl p) ↦ rw (p, search_rest) i
    | inr (inr p) ↦ rw (p, search_rest) i
  ]

  pub no_loops-IsIdle : IsIdle (no_loops g)
  unfolding lookup
  no_loops-IsIdle = record { idle = λ v e. cc e; sound = λ v m. absurd (Memᴰ.not-nil m) }

  pub search_entry-IsIdle : (depth : ℕ) → IsIdle (search_entry g depth)
  unfolding search_entry lookup
  search_entry-IsIdle depth = elim (Option-cases (lookup g.entry_node_id g.nodes)) [
    | inl e ↦ rw (e, search_entry) no_loops-IsIdle
    | inr (n, e) ↦
        rw (e, search_entry)
          (IsIdle-Searched (no_loops g) (dfs g depth g.entry_node_id [] (no_loops g))
            no_loops-IsIdle
            (dfs-Visits g depth g.entry_node_id [] (no_loops g) refl
              (key_of_lookup g.entry_node_id n g.nodes e) (λ v m. absurd (Memᴰ.not-nil m))
              (IsStack-empty (no_loops g) g.entry_node_id no_loops-IsIdle)))
  ]

  visits-IsIdle :
      (depth : ℕ) (ids : List String) (s : Loops)
      → ((id : String) → Memᴰ id ids → HasNode g id)
      → IsIdle s
      → IsIdle (foldl (search_rest g depth) s ids)
  visits-IsIdle depth [] s nodes i = i
  visits-IsIdle depth (id ∷ ids) s nodes i =
      visits-IsIdle depth ids (search_rest g depth s id) (λ v m. nodes v (Memᴰ.tail m))
        (search_rest-IsIdle depth s id (nodes id (Memᴰ.head refl)) i)

  pub loops_to-Sound : (depth : ℕ) → Sound g (loops_to g depth)
  unfolding loops_to
  loops_to-Sound depth =
      (visits-IsIdle depth (keys g.nodes) (search_entry g depth) (λ id m. m)
        (search_entry-IsIdle depth)).sound

-- From every node that is counted as in a loop, edges lead to a node that lies on a cycle.
pub nodes_in_loops-LeadsToCycle :
    (g : WorkflowGraph) (v : String) → Memᴰ v (nodes_in_loops g) → LeadsToCycle g v
unfolding nodes_in_loops
nodes_in_loops-LeadsToCycle g v m = loops_to-Sound g (length g.nodes) v m
