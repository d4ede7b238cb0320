-- ===== src/Rules/Cost/Depth.antt =====
-- The depth of the calls: the number of nodes bounds it.
use native.Mathlib.Decide.{dec_le}
use native.Mathlib.Nat.{le_trans}
use shingan.Prelude.{
  ℕ, zero, suc, ◌≤◌, String, ◌≡◌, refl, ap, ◌∙◌, inl, inr, List, [], ◌∷◌, ◌++◌, foldl, length,
  lookup, keys, key_of_lookup, Memᴰ, arith, Option-cases,
}
use shingan.Domain.Graph.{Edge, WorkflowGraph, outgoing_edges}
use shingan.Rules.Cycle.{unvisited, in_progress, completed}
use shingan.Rules.Cycle.Spec.{HasNode}
use shingan.Rules.Cycle.Search.{state_cases}
use shingan.Rules.Cycle.Marks.{unseen, unseen-le, unseen-mark, unseen-le-length}
use shingan.Rules.Cost.{
  Loops, state_at, mark, step, dfs, search_rest, no_loops, search_entry, loops_to,
}
use shingan.Rules.Cost.Walks.{
  states, Sound, IsStack, IsStack-Later, IsStack-edge, IsStack-Push, Visits, step-Searched,
  out_edges, dfs-Visits,
}
use shingan.Rules.Cost.Idle.{
  IsIdle, IsStack-empty, no_loops-IsIdle, search_rest-IsIdle, search_entry-IsIdle,
}

module _ (g : WorkflowGraph) where
  -- The nodes that are still unvisited.
  abbrev left : Loops → ℕ
  left s = unseen g (states s)

  abbrev Agree :
      ℕ → (String → List String → Loops → Loops) → (String → List String → Loops → Loops) → Type 0
  Agree fuel more less =
      (id : String) (stack : List String) (s : Loops)
      → state_at s id ≡ unvisited
      → HasNode g id
      → left s ≤ fuel
      → Sound g s
      → IsStack g s stack id
      → more id stack s ≡ less id stack s

  module _ (fuel : ℕ) (more less : String → List String → Loops → Loops)
      (agree : Agree fuel more less) (stack : List String) (u : String) where
    step_agree :
        (s : Loops) (e : Edge)
        → Memᴰ e g.edges
        → e.from ≡ u
        → left s ≤ fuel
        → Sound g s
        → IsStack g s stack u
        → step g more stack s e ≡ step g less stack s e
    unfolding step
    step_agree s e at is few h k = elim (state_cases (state_at s e.to)) [
      | inr (inl back) ↦ rw (back, step)
      | inr (inr old) ↦ rw (old, step)
      | inl new ↦ elim (Option-cases (lookup e.to g.nodes)) [
        | inl gone ↦ rw (new, step) (rw gone refl)
        | inr (n, found) ↦
            let node = key_of_lookup e.to n g.nodes found in
            rw (new, step)
              (rw found (
                agree e.to stack s new node few h
                  (IsStack-edge g s stack u e.to (e, at, is, refl, node) k)))
      ]
    ]

    steps_agree :
        Visits g less
        → (es : List Edge) → ((e : Edge) → Memᴰ e es → Memᴰ e g.edges × (e.from ≡ u))
        → (s : Loops) → left s ≤ fuel
        → Sound g s
        → IsStack g s stack u
        → foldl (step g more stack) s es ≡ foldl (step g less stack) s es
    steps_agree visits [] out s few h k = refl
    steps_agree visits (e ∷ es) out s few h k =
        let (at, is) = out e (Memᴰ.head refl) in
        let first = step-Searched g less visits stack u s e at is h k in
        let t = step g less stack s e in
        ap (λ x. foldl (step g more stack) x es) (step_agree s e at is few h k)
        ∙ steps_agree visits es (λ x m. out x (Memᴰ.tail m)) t
            (omega (arith, unseen-le g (states s) (states t) first.later)) first.sound
            (IsStack-Later g s t stack u first.later k)

  -- A call with fuel for the unvisited nodes does not change with more.
  dfs-Agree : (fuel : ℕ) → Agree fuel (dfs g (suc fuel)) (dfs g fuel)
  unfolding dfs
  dfs-Agree zero id stack s new node few h k =
      absurd (omega (arith, unseen-mark g id (states s) node new))
  dfs-Agree (suc fuel) id stack s new node few h k = ap (mark id completed) (
      steps_agree fuel (dfs g (suc fuel)) (dfs g fuel) (dfs-Agree fuel) (stack ++ id ∷ []) id
        (dfs-Visits g fuel) (outgoing_edges g id) (out_edges g id) (mark id in_progress s)
        (omega (arith, unseen-mark g id (states s) node new)) h (IsStack-Push g s stack id node k))

  dfs_deeper : (more fuel : ℕ) → fuel ≤ more → Agree fuel (dfs g more) (dfs g fuel)
  dfs_deeper zero fuel d id stack s new node few h k = let e : fuel ≡ zero = omega arith in rw e
  dfs_deeper (suc more) fuel d id stack s new node few h k = elim (dec_le fuel more) [
    | yes less ↦
        dfs-Agree more id stack s new node (le_trans few less) h k
        ∙ dfs_deeper more fuel less id stack s new node few h k
    | no exact ↦ let e : fuel ≡ suc more = omega arith in rw e
  ]

  no_loops_unvisited : state_at (no_loops g) g.entry_node_id ≡ unvisited
  unfolding lookup
  no_loops_unvisited = refl

  module _ (more : ℕ) (enough : length g.nodes ≤ more) where
    call_deeper :
        (s : Loops) (id : String)
        → HasNode g id
        → state_at s id ≡ unvisited
        → IsIdle g s
        → dfs g more id [] s ≡ dfs g (length g.nodes) id [] s
    call_deeper s id node new i =
        dfs_deeper more (length g.nodes) enough id [] s new node (unseen-le-length g (states s))
          i.sound (IsStack-empty g s id i)

    search_rest_deeper :
        (s : Loops) (id : String)
        → HasNode g id
        → IsIdle g s
        → search_rest g more s id ≡ search_rest g (length g.nodes) s id
    unfolding search_rest
    search_rest_deeper s id node i = elim (state_cases (state_at s id)) [
      | inl new ↦ rw (new, search_rest) (call_deeper s id node new i)
      | inr (inl p) ↦ rw (p, search_rest)
      | inr (inr p) ↦ rw (p, search_rest)
    ]

    visits_deeper :
        (ids : List String) (s : Loops)
        → ((id : String) → Memᴰ id ids → HasNode g id)
        → IsIdle g s
        → foldl (search_rest g more) s ids ≡ foldl (search_rest g (length g.nodes)) s ids
    visits_deeper [] s nodes i = refl
    visits_deeper (id ∷ ids) s nodes i =
        let node = nodes id (Memᴰ.head refl) in
        ap (λ x. foldl (search_rest g more) x ids) (search_rest_deeper s id node i)
        ∙ visits_deeper ids (search_rest g (length g.nodes) s id) (λ v m. nodes v (Memᴰ.tail m))
            (search_rest-IsIdle g (length g.nodes) s id node i)

    search_entry_deeper : search_entry g more ≡ search_entry g (length g.nodes)
    unfolding search_entry
    search_entry_deeper = elim (Option-cases (lookup g.entry_node_id g.nodes)) [
      | inl e ↦ rw (e, search_entry)
      | inr (n, e) ↦
          rw (e, search_entry)
            (call_deeper (no_loops g) g.entry_node_id (key_of_lookup g.entry_node_id n g.nodes e)
              no_loops_unvisited (no_loops-IsIdle g))
    ]

    -- The number of nodes bounds how deep the calls nest: with more depth the search is the same.
    pub loops_to_deeper : loops_to g more ≡ loops_to g (length g.nodes)
    unfolding loops_to
    loops_to_deeper =
        ap (λ s. foldl (search_rest g more) s (keys g.nodes)) search_entry_deeper
        ∙ visits_deeper (keys g.nodes) (search_entry g (length g.nodes)) (λ id m. m)
            (search_entry-IsIdle g (length g.nodes))
