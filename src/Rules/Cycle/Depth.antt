-- ===== src/Rules/Cycle/Depth.antt =====
-- The depth of the calls: once it covers the unvisited nodes, more of it changes nothing.
use native.Mathlib.Decide.{dec_le}
use native.Mathlib.Nat.{le_trans}
use shingan.Prelude.{
  ℕ, zero, suc, ◌≤◌, String, ◌≡◌, refl, ap, ◌∙◌, inl, inr, List, [], ◌∷◌, ◌++◌, foldl, lookup,
  key_of_lookup, Memᴰ, arith, Option-cases,
}
use shingan.Prelude.Sort.{sort}
use shingan.Domain.Graph.{Edge, WorkflowGraph, outgoing_edges}
use shingan.Rules.Cycle.{
  unvisited, in_progress, completed, Dfs, state_of, set_state, edge_less, follow, dfs,
}
use shingan.Rules.Cycle.Spec.{HasNode}
use shingan.Rules.Cycle.Search.{Inv, OnPath, Visits, state_cases, extend, follow-Followed}
use shingan.Rules.Cycle.Calls.{Inv-mark, OnPath-mark, out_edges, dfs-Visited}
use shingan.Rules.Cycle.Marks.{unseen, unseen-le, unseen-mark}

module _ (g : WorkflowGraph) where
  abbrev Agree :
      ℕ → (String → List String → Dfs → Dfs) → (String → List String → Dfs → Dfs) → Type 0
  Agree fuel more less =
      (id : String) (path : List String) (s : Dfs)
      → state_of s id ≡ unvisited
      → HasNode g id
      → unseen g s ≤ fuel
      → Inv g s
      → OnPath g s path id
      → more id path s ≡ less id path s

  module _ (fuel : ℕ) (more less : String → List String → Dfs → Dfs) (agree : Agree fuel more less)
      (path : List String) (u : String) where
    follow_agree :
        (s : Dfs) (e : Edge)
        → Memᴰ e g.edges
        → e.from ≡ u
        → unseen g s ≤ fuel
        → Inv g s
        → OnPath g s path u
        → follow g more path s e ≡ follow g less path s e
    unfolding follow
    follow_agree s e at is h i p = elim (state_cases (state_of s e.to)) [
      | inr (inl back) ↦ rw (back, follow)
      | inr (inr old) ↦ rw (old, follow)
      | inl new ↦
          rw (new, follow)
            (elim (Option-cases (lookup e.to g.nodes)) [
              | inl gone ↦ rw (gone, follow)
              | inr (n, found) ↦
                  let node = key_of_lookup e.to n g.nodes found in
                  rw (found, follow)
                    (agree e.to path s new node h i
                      (extend g s path u e.to (e, at, is, refl, node) p))
            ])
    ]

    foldl_agree :
        Visits g fuel less
        → (es : List Edge) → ((e : Edge) → Memᴰ e es → Memᴰ e g.edges × (e.from ≡ u))
        → (s : Dfs) → unseen g s ≤ fuel
        → Inv g s
        → OnPath g s path u
        → foldl (follow g more path) s es ≡ foldl (follow g less path) s es
    foldl_agree visits [] out s h i p = refl
    foldl_agree visits (e ∷ es) out s h i p =
        let (at, is) = out e (Memᴰ.head refl) in
        let first = follow-Followed g fuel less visits s path u e at is h i p in
        let s' = follow g less path s e in
        ap (λ x. foldl (follow g more path) x es) (follow_agree s e at is h i p)
        ∙ foldl_agree visits es (λ x m. out x (Memᴰ.tail m)) s'
            (omega (arith, unseen-le g s s' first.later)) first.inv
            (record {
              marked = λ v q. p.marked v (first.later.progress v q);
              leads = p.leads;
              nodes = p.nodes;
            })

  -- A call that has fuel for the unvisited nodes does not change with more.
  dfs-Agree : (fuel : ℕ) → Agree fuel (dfs g (suc fuel)) (dfs g fuel)
  unfolding dfs
  dfs-Agree zero id path s new n h i p = absurd (omega (arith, unseen-mark g id s n new))
  dfs-Agree (suc fuel) id path s new n h i p = ap (set_state id completed) (
      foldl_agree fuel (dfs g (suc fuel)) (dfs g fuel) (dfs-Agree fuel) (path ++ id ∷ []) id
        (dfs-Visited g fuel) (sort edge_less (outgoing_edges g id)) (out_edges g id)
        (set_state id in_progress s) (omega (arith, unseen-mark g id s n new)) (Inv-mark g s id i)
        (OnPath-mark g s path id n p))

  pub dfs_deeper : (more fuel : ℕ) → fuel ≤ more → Agree fuel (dfs g more) (dfs g fuel)
  dfs_deeper zero fuel d id path s new n h i p = let e : fuel ≡ zero = omega arith in rw e
  dfs_deeper (suc more) fuel d id path s new n h i p = elim (dec_le fuel more) [
    | yes less ↦
        dfs-Agree more id path s new n (le_trans h less) i p
        ∙ dfs_deeper more fuel less id path s new n h i p
    | no exact ↦ let e : fuel ≡ suc more = omega arith in rw e
  ]
