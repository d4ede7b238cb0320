-- ===== src/Rules/Cycle/Calls.antt =====
-- A call of `dfs`: the loop over the edges, and the whole call by induction on its depth.
use mathlib.Core.List.Memᴰ
use shingan.Prelude.{
  ℕ, zero, suc, ◌≤◌, String, ◌==◌, eq_iff, str_cases, ◌≡◌, refl, sym, subst, ◌∙◌, ◌⊎◌, inl, inr,
  ⊎_elim, List, [], ◌∷◌, ◌++◌, foldl, Memᴰ, Memᴰ-concat, Memᴰ-select, arith,
}
use shingan.Prelude.Sort.{sort, Memᴰ-sort}
use shingan.Domain.Graph.{Edge, WorkflowGraph, outgoing_edges}
use shingan.Rules.Cycle.{
  unvisited, in_progress, completed, Dfs, state_of, set_state, edge_less, follow, dfs,
}
use shingan.Rules.Cycle.Spec.{HasNode, stay, IsGuarded, Done, guarded, closed}
use shingan.Rules.Cycle.Search.{Inv, OnPath, Settled, Visits, follow-Followed}
use shingan.Rules.Cycle.Marks.{
  state_of-set_state, mark_self, mark_other, Later, Later-refl, Later-trans, unseen, unseen-le,
  unseen-mark,
}

module _ (g : WorkflowGraph) where
  abbrev SettledAll : String → List Edge → Type 0
  SettledAll u es = IsGuarded g u ⊎ ((e : Edge) → Memᴰ e es → HasNode g e.to → Done g e.to)

  record Folded (s t : Dfs) (u : String) (es : List Edge) : Type 0 where
    later : Later s t
    inv : Inv g t
    settled : t.findings ≡ [] → SettledAll u es

  both-Settled :
      (u : String) (e : Edge) (es : List Edge)
      → Settled g u e.to
      → SettledAll u es
      → SettledAll u (e ∷ es)
  both-Settled u e es (inl a) b = inl a
  both-Settled u e es (inr a) (inl b) = inl b
  both-Settled u e es (inr a) (inr b) = inr (λ x m n.
      ⊎_elim (λ (p : x ≡ e). subst (λ (y : Edge). HasNode g y.to → Done g y.to) (sym p) a n)
        (λ r. b x r n) (Memᴰ.cases_cons m))

  foldl-Folded :
      (fuel : ℕ) (recurse : String → List String → Dfs → Dfs)
      → Visits g fuel recurse
      → (path : List String) (u : String) (es : List Edge)
      → ((e : Edge) → Memᴰ e es → Memᴰ e g.edges × (e.from ≡ u))
      → (s : Dfs) → unseen g s ≤ fuel
      → Inv g s
      → OnPath g s path u
      → Folded s (foldl (follow g recurse path) s es) u es
  foldl-Folded fuel recurse visits path u [] out s h i p = record {
    later = Later-refl s;
    inv = i;
    settled = λ q. inr (λ e m n. absurd (Memᴰ.not-nil m));
  }
  foldl-Folded fuel recurse visits path u (e ∷ es) out s h i p =
      let (at, is) = out e (Memᴰ.head refl) in
      let first = follow-Followed g fuel recurse visits s path u e at is h i p in
      let s' = follow g recurse path s e in
      let rest =
        foldl-Folded fuel recurse visits path u es (λ x m. out x (Memᴰ.tail m)) s'
          (omega (arith, unseen-le g s s' first.later)) first.inv
          (record {
            marked = λ v q. p.marked v (first.later.progress v q);
            leads = p.leads;
            nodes = p.nodes;
          }) in
      record {
        later = Later-trans first.later rest.later;
        inv = rest.inv;
        settled = λ q. both-Settled u e es (first.settled (rest.later.grows q)) (rest.settled q);
      }

  -- The edges that a call walks are those that leave the node.
  pub out_edges :
      (u : String) (e : Edge)
      → Memᴰ e (sort edge_less (outgoing_edges g u))
      → Memᴰ e g.edges × (e.from ≡ u)
  unfolding outgoing_edges
  out_edges u e m =
      let (at, t) =
        (Memᴰ-select e (λ d. d.from == u) g.edges).0
          ((Memᴰ-sort edge_less e (outgoing_edges g u)).0 m) in
      (at, (eq_iff e.from u).0 t)

  in_edges :
      (u : String) (e : Edge)
      → Memᴰ e g.edges
      → e.from ≡ u
      → Memᴰ e (sort edge_less (outgoing_edges g u))
  unfolding outgoing_edges
  in_edges u e at is =
      (Memᴰ-sort edge_less e (outgoing_edges g u)).1
        ((Memᴰ-select e (λ d. d.from == u) g.edges).1 (at, (eq_iff e.from u).1 is))

  Done-of_settled : (u : String) → SettledAll u (sort edge_less (outgoing_edges g u)) → Done g u
  Done-of_settled u (inl h) = guarded h
  Done-of_settled u (inr f) = closed λ w (e, at, is, to, n).
      subst (Done g) to (f e (in_edges u e at is) (subst (HasNode g) (sym to) n))

  pub Inv-mark : (s : Dfs) (id : String) → Inv g s → Inv g (set_state id in_progress s)
  Inv-mark s id i = record {
    sound = i.sound;
    good = λ q v c. i.good q v (ground (arith, state_of-set_state id v in_progress s, eq_iff id v));
    seen = i.seen;
  }

  pub OnPath-mark :
      (s : Dfs) (path : List String) (id : String)
      → HasNode g id
      → OnPath g s path id
      → OnPath g (set_state id in_progress s) (path ++ id ∷ []) id
  OnPath-mark s path id n p = record {
    marked = λ v c. elim (str_cases id v) [
      | inl (e, _) ↦ (Memᴰ-concat v id path).1 (inr (sym e))
      | inr (ne, _) ↦
          (Memᴰ-concat v id path).1 (inl (p.marked v (sym (mark_other id v in_progress s ne) ∙ c)))
    ];
    leads = λ v m. ⊎_elim (p.leads v) stay ((Memᴰ-concat v id path).0 m);
    nodes =
        λ v m. ⊎_elim (p.nodes v) (λ e. subst (HasNode g) (sym e) n) ((Memᴰ-concat v id path).0 m);
  }

  Inv-finish :
      (s : Dfs) (id : String)
      → Inv g s
      → (s.findings ≡ [] → Done g id)
      → Inv g (set_state id completed s)
  Inv-finish s id i d = record {
    sound = i.sound;
    good = λ q v c. elim (str_cases id v) [
      | inl (e, _) ↦ subst (Done g) e (d q)
      | inr (ne, _) ↦ i.good q v (sym (mark_other id v completed s ne) ∙ c)
    ];
    seen = i.seen;
  }

  Later-finish :
      (s t : Dfs) (id : String)
      → state_of s id ≡ unvisited
      → Later (set_state id in_progress s) t
      → Later s (set_state id completed t)
  Later-finish s t id new l = record {
    kept = λ v n. elim (str_cases id v) [
      | inl (e, _) ↦ absurd (n (subst (λ x. state_of s x ≡ unvisited) e new))
      | inr (ne, _) ↦
          let old = mark_other id v in_progress s ne in
          mark_other id v completed t ne ∙ l.kept v (λ q. n (sym old ∙ q)) ∙ old
    ];
    progress = λ v c. elim (str_cases id v) [
      | inl (e, _) ↦
          let done : state_of (set_state id completed t) v ≡ completed =
            subst (λ x. state_of (set_state id completed t) x ≡ completed) e
              (mark_self id completed t) in
          cc
      | inr (ne, _) ↦
          sym (mark_other id v in_progress s ne)
          ∙ l.progress v (sym (mark_other id v completed t ne) ∙ c)
    ];
    grows = l.grows;
  }

  -- With as much fuel as there are unvisited nodes a call completes its node.
  pub dfs-Visited : (fuel : ℕ) → Visits g fuel (dfs g fuel)
  unfolding dfs
  dfs-Visited zero id path s new n h i p = absurd (omega (arith, unseen-mark g id s n new))
  dfs-Visited (suc fuel) id path s new n h i p =
      let s1 = set_state id in_progress s in
      let after =
        foldl (follow g (dfs g fuel) (path ++ id ∷ [])) s1 (sort edge_less (outgoing_edges g id)) in
      let r =
        foldl-Folded fuel (dfs g fuel) (dfs-Visited fuel) (path ++ id ∷ []) id
          (sort edge_less (outgoing_edges g id)) (out_edges id) s1
          (omega (arith, unseen-mark g id s n new)) (Inv-mark s id i) (OnPath-mark s path id n p) in
      record {
        later = Later-finish s after id new r.later;
        inv = Inv-finish after id r.inv (λ q. Done-of_settled id (r.settled q));
        finished = mark_self id completed after;
      }
