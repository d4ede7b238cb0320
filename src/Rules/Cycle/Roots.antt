-- ===== src/Rules/Cycle/Roots.antt =====
-- The top level of the search: calls at the entry and at each node that is left.
use mathlib.Core.List.Memᴰ
use native.Mathlib.Nat.{le_refl}
use shingan.Prelude.{
  ℕ, ◌≤◌, String, ◌≡◌, ◌≢◌, refl, ap, sym, subst, ◌∙◌, inl, inr, Option-cases, List, [], ◌∷◌, foldl,
  lookup, keys, key_of_lookup, length, contains, Memᴰ, arith,
}
use shingan.Prelude.Text.{str_ltb}
use shingan.Prelude.Sort.{sort, Memᴰ-sort}
use shingan.Domain.Graph.{WorkflowGraph}
use shingan.Rules.Cycle.{
  VisitState, unvisited, in_progress, completed, Dfs, state_of, fresh, dfs, visit_isolated,
  from_entry, explore_to,
}
use shingan.Rules.Cycle.Spec.{HasNode}
use shingan.Rules.Cycle.Marks.{Later, Later-refl, Later-trans, unseen-le-length}
use shingan.Rules.Cycle.Search.{Inv, OnPath}
use shingan.Rules.Cycle.Calls.{dfs-Visited}
use shingan.Rules.Cycle.Depth.{dfs_deeper}

module _ (g : WorkflowGraph) where
  -- Between the calls of the top level no node is in progress.
  pub record Rest (s : Dfs) : Type 0 where
    pub inv : Inv g s
    pub idle : (v : String) → state_of s v ≢ in_progress

  Rest-fresh : Rest fresh
  unfolding lookup contains
  Rest-fresh = record {
    inv = record { sound = λ f m. absurd (Memᴰ.not-nil m); good = λ q v c. cc; seen = λ v c. cc };
    idle = λ v c. cc;
  }

  at_root : (s : Dfs) (id : String) → Rest s → OnPath g s [] id
  at_root s id r = record {
    marked = λ v c. absurd (r.idle v c);
    leads = λ v m. absurd (Memᴰ.not-nil m);
    nodes = λ v m. absurd (Memᴰ.not-nil m);
  }

module _ (g : WorkflowGraph) (depth : ℕ) (deep : length g.nodes ≤ depth) where
  visit_root :
      (s : Dfs) (id : String)
      → state_of s id ≡ unvisited
      → HasNode g id
      → Rest g s
      → Rest g (dfs g depth id [] s)
        × Later s (dfs g depth id [] s)
        × (state_of (dfs g depth id [] s) id ≡ completed)
  visit_root s id new n r =
      let v =
        dfs-Visited g depth id [] s new n (omega (arith, unseen-le-length g s)) r.inv
          (at_root g s id r) in
      (record { inv = v.inv; idle = λ x c. r.idle x (v.later.progress x c) }, v.later, v.finished)

  pub from_entry-Rest : Rest g (from_entry g depth)
  unfolding from_entry lookup
  from_entry-Rest = elim (Option-cases (lookup g.entry_node_id g.nodes)) [
    | inl gone ↦ rw (gone, from_entry) (Rest-fresh g)
    | inr (n, found) ↦
        rw (found, from_entry)
          (visit_root fresh g.entry_node_id refl (key_of_lookup g.entry_node_id n g.nodes found)
            (Rest-fresh g)).0
  ]

  record Swept (s t : Dfs) (id : String) : Type 0 where
    rest : Rest g t
    later : Later s t
    finished : state_of t id ≡ completed

  sweep :
      (x : VisitState) (s : Dfs) (id : String)
      → state_of s id ≡ x
      → HasNode g id
      → Rest g s
      → Swept s (visit_isolated g depth s id) id
  unfolding visit_isolated
  sweep unvisited s id e n r =
      let (rest, later, finished) = visit_root s id e n r in
      rw (e, visit_isolated) (record { rest = rest; later = later; finished = finished })
  sweep in_progress s id e n r = absurd (r.idle id e)
  sweep completed s id e n r =
      rw (e, visit_isolated) (record { rest = r; later = Later-refl s; finished = e })

  sweep_all :
      (ids : List String)
      → ((id : String) → Memᴰ id ids → HasNode g id)
      → (s : Dfs) → Rest g s
      → Rest g (foldl (visit_isolated g depth) s ids)
        × Later s (foldl (visit_isolated g depth) s ids)
        × ((id : String)
            → Memᴰ id ids
            → state_of (foldl (visit_isolated g depth) s ids) id ≡ completed)
  sweep_all [] ns s r = (r, Later-refl s, λ id m. absurd (Memᴰ.not-nil m))
  sweep_all (id ∷ ids) ns s r =
      let first = sweep (state_of s id) s id refl (ns id (Memᴰ.head refl)) r in
      let (rest, later, all) =
        sweep_all ids (λ x m. ns x (Memᴰ.tail m)) (visit_isolated g depth s id) first.rest in
      (
        rest,
        Later-trans first.later later,
        λ x m. elim (Memᴰ.cases_cons m) [
          | inr r' ↦ all x r'
          | inl e ↦
              let done = later.kept id (λ q. cc (first.finished)) ∙ first.finished in
              subst
                (λ y.
                  state_of (foldl (visit_isolated g depth) (visit_isolated g depth s id) ids) y
                  ≡ completed)
                (sym e) done
        ],
      )

  pub explored :
      Rest g (explore_to g depth)
      × ((id : String) → HasNode g id → state_of (explore_to g depth) id ≡ completed)
  unfolding explore_to
  explored =
      let ids = sort str_ltb (keys g.nodes) in
      let (rest, _, all) =
        sweep_all ids (λ id m. (Memᴰ-sort str_ltb id (keys g.nodes)).0 m) (from_entry g depth)
          from_entry-Rest in
      (rest, λ id n. all id ((Memᴰ-sort str_ltb id (keys g.nodes)).1 n))

module _ (g : WorkflowGraph) (depth : ℕ) (deep : length g.nodes ≤ depth) where
  pub same_entry : from_entry g depth ≡ from_entry g (length g.nodes)
  unfolding from_entry lookup
  same_entry = elim (Option-cases (lookup g.entry_node_id g.nodes)) [
    | inl gone ↦ rw (gone, from_entry)
    | inr (n, found) ↦
        rw (found, from_entry)
          (dfs_deeper g depth (length g.nodes) deep g.entry_node_id [] fresh refl
            (key_of_lookup g.entry_node_id n g.nodes found) (unseen-le-length g fresh)
            (Rest-fresh g).inv (at_root g fresh g.entry_node_id (Rest-fresh g)))
  ]

  same_visit :
      (x : VisitState) (s : Dfs) (id : String)
      → state_of s id ≡ x
      → HasNode g id
      → Rest g s
      → visit_isolated g depth s id ≡ visit_isolated g (length g.nodes) s id
  unfolding visit_isolated
  same_visit unvisited s id e n r =
      rw (e, visit_isolated)
        (dfs_deeper g depth (length g.nodes) deep id [] s e n (unseen-le-length g s) r.inv
          (at_root g s id r))
  same_visit in_progress s id e n r = rw (e, visit_isolated)
  same_visit completed s id e n r = rw (e, visit_isolated)

  pub same_sweep :
      (ids : List String)
      → ((id : String) → Memᴰ id ids → HasNode g id)
      → (s : Dfs) → Rest g s
      → foldl (visit_isolated g depth) s ids ≡ foldl (visit_isolated g (length g.nodes)) s ids
  same_sweep [] ns s r = refl
  same_sweep (id ∷ ids) ns s r =
      let n = ns id (Memᴰ.head refl) in
      let next =
        sweep g (length g.nodes) (le_refl (length g.nodes)) (state_of s id) s id refl n r in
      ap (λ x. foldl (visit_isolated g depth) x ids) (same_visit (state_of s id) s id refl n r)
      ∙ same_sweep ids (λ x m. ns x (Memᴰ.tail m)) (visit_isolated g (length g.nodes) s id)
          next.rest
