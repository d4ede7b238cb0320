-- ===== src/Rules/Cycle/Search.antt =====
-- One edge of the loop in `dfs`: its marks, its findings, and what is done afterwards.
use mathlib.Core.List.Memᴰ
use shingan.Prelude.{
  ℕ, ◌≤◌, String, true, ◌≡◌, ◌≢◌, refl, ap, sym, subst, ◌∙◌, ◌⊎◌, inl, inr, ⊎_elim, none, List, [],
  ◌∷◌, ◌++◌, lookup, key_of_lookup, lookup_of_key, contains, Memᴰ, Memᴰ-concat, Option-cases,
  Bool-cases,
}
use shingan.Domain.Finding.{Finding}
use shingan.Domain.Graph.{Edge, WorkflowGraph}
use shingan.Rules.Cycle.{
  VisitState, unvisited, in_progress, completed, Dfs, state_of, evaluate_cycle, back_edge, follow,
}
use shingan.Rules.Cycle.Spec.{HasNode, Link, WalkTo, Cycle, IsGuarded, Done, walk_on, close_walk}
use shingan.Rules.Cycle.Verdict.{Bounded, evaluate_cycle_cases}
use shingan.Rules.Cycle.Marks.{Later, Later-refl, unseen}

pub state_cases : (x : VisitState) → (x ≡ unvisited) ⊎ ((x ≡ in_progress) ⊎ (x ≡ completed))
state_cases unvisited = inl refl
state_cases in_progress = inr (inl refl)
state_cases completed = inr (inr refl)

concat-ne-nil {ℓ} : {A : Type ℓ} (xs : List A) (x : A) → xs ++ x ∷ [] ≢ []
concat-ne-nil [] x e = cc
concat-ne-nil (y ∷ xs) x e = cc

module _ (g : WorkflowGraph) where
  -- Findings name nodes on cycles; while there are none, what is completed is done.
  pub record Inv (s : Dfs) : Type 0 where
    pub sound : (f : Finding) → Memᴰ f s.findings → Cycle g f.node_id
    pub good : s.findings ≡ [] → (v : String) → state_of s v ≡ completed → Done g v
    pub seen : (v : String) → contains s.seen_cycle v ≡ true → s.findings ≢ []

  -- The nodes in progress stand on the path, and all on the path leads to `u`.
  pub record OnPath (s : Dfs) (path : List String) (u : String) : Type 0 where
    pub marked : (v : String) → state_of s v ≡ in_progress → Memᴰ v path
    pub leads : (v : String) → Memᴰ v path → WalkTo g u v
    pub nodes : (v : String) → Memᴰ v path → HasNode g v

  -- After the edge, some loop node bounds `u`, or its target is done.
  abbrev pub Settled : String → String → Type 0
  Settled u w = IsGuarded g u ⊎ (HasNode g w → Done g w)

  pub record Followed (s t : Dfs) (u : String) (w : String) : Type 0 where
    pub later : Later s t
    pub inv : Inv t
    pub settled : t.findings ≡ [] → Settled u w

  -- What a call of `dfs` promises.
  pub record Visited (s t : Dfs) (id : String) : Type 0 where
    pub later : Later s t
    pub inv : Inv t
    pub finished : state_of t id ≡ completed

  abbrev pub Visits : ℕ → (String → List String → Dfs → Dfs) → Type 0
  Visits fuel recurse =
      (id : String) (path : List String) (s : Dfs)
      → state_of s id ≡ unvisited
      → HasNode g id
      → unseen g s ≤ fuel
      → Inv s
      → OnPath s path id
      → Visited s (recurse id path s) id

  IsGuarded-of_Bounded :
      (s : Dfs) (path : List String) (u c : String)
      → OnPath s path u
      → Memᴰ c path
      → Bounded g c path
      → IsGuarded g u
  IsGuarded-of_Bounded s path u c p m b =
      let (k, has, small) = b.small in
      record {
        at = b.at;
        node = b.node;
        bound = k;
        present = b.present;
        is_loop = b.loops;
        has_bound = has;
        small = small;
        leads = p.leads b.at (⊎_elim (λ e. Memᴰ.cast e m) (λ h. h) b.where_at);
      }

  Followed-same :
      (s : Dfs) (u w : String) → Inv s → (s.findings ≡ [] → Settled u w) → Followed s s u w
  Followed-same s u w i h = record { later = Later-refl s; inv = i; settled = h }

  -- A new finding is on the cycle that the back edge closes.
  Followed-report :
      (s : Dfs) (u w : String) (f : Finding)
      → Inv s
      → Cycle g w
      → f.node_id ≡ w
      → Followed s (record s { seen_cycle = w ∷ s.seen_cycle; findings = s.findings ++ f ∷ [] }) u w
  Followed-report s u w f i c e = record {
    later = record {
      kept = λ v n. refl;
      progress = λ v p. p;
      grows = λ q. absurd (concat-ne-nil s.findings f q);
    };
    inv = record {
      sound = λ x m.
          ⊎_elim (i.sound x)
            (λ (p : x ≡ f). subst (Cycle g) (sym (ap (λ (y : Finding). y.node_id) p ∙ e)) c)
            ((Memᴰ-concat x f s.findings).0 m);
      good = λ q v p. absurd (concat-ne-nil s.findings f q);
      seen = λ v p. concat-ne-nil s.findings f;
    };
    settled = λ q. absurd (concat-ne-nil s.findings f q);
  }

  back_edge-Followed :
      (s : Dfs) (path : List String) (u w : String)
      → Inv s
      → OnPath s path u
      → Memᴰ w path
      → Link g u w
      → Followed s (back_edge g w path s) u w
  unfolding back_edge
  back_edge-Followed s path u w i p m l = elim (Bool-cases (contains s.seen_cycle w)) [
    | inl old ↦ rw (old, back_edge) (Followed-same s u w i (λ q. absurd (i.seen w old q)))
    | inr new ↦ elim (evaluate_cycle_cases g w path) [
      | inl (b, quiet) ↦
          rw (new, back_edge)
            (rw (quiet, back_edge)
              (Followed-same s u w i (λ q. inl (IsGuarded-of_Bounded s path u w p m b))))
      | inr (loud, named) ↦
          rw (new, back_edge)
            (rw (loud, back_edge)
              (Followed-report s u w (evaluate_cycle g w path) i (close_walk g (p.leads w m) l)
                named))
    ]
  ]

  pub missing : (v : String) → lookup v g.nodes ≡ none → ¬ HasNode g v
  missing v gone n = let (x, found) = lookup_of_key v g.nodes n in cc

  from_visit : (s : Dfs) {t : Dfs} (w u : String) → Visited s t w → Followed s t u w
  from_visit s w u r = record {
    later = r.later;
    inv = r.inv;
    settled = λ q. inr (λ n. r.inv.good q w r.finished);
  }

  -- The path leads on along the edge.
  pub extend :
      (s : Dfs) (path : List String) (u w : String) → Link g u w → OnPath s path u → OnPath s path w
  extend s path u w l p = record {
    marked = p.marked;
    leads = λ v m. walk_on g (p.leads v m) l;
    nodes = p.nodes;
  }

  pub follow-Followed :
      (fuel : ℕ) (recurse : String → List String → Dfs → Dfs)
      → Visits fuel recurse
      → (s : Dfs) (path : List String) (u : String) (e : Edge) → Memᴰ e g.edges
      → e.from ≡ u
      → unseen g s ≤ fuel
      → Inv s
      → OnPath s path u
      → Followed s (follow g recurse path s e) u e.to
  unfolding follow
  follow-Followed fuel recurse visits s path u e at is h i p =
      elim (state_cases (state_of s e.to)) [
        | inl new ↦
            rw (new, follow)
              (elim (Option-cases (lookup e.to g.nodes)) [
                | inl gone ↦
                    rw (gone, follow)
                      (Followed-same s u e.to i (λ q. inr (λ n. absurd (missing e.to gone n))))
                | inr (n, found) ↦
                    rw (found, follow)
                      (from_visit s e.to u (
                        visits e.to path s new (key_of_lookup e.to n g.nodes found) h i (
                          extend s path u e.to (e, at, is, refl, key_of_lookup e.to n g.nodes found)
                            p)))
              ])
        | inr (inl back) ↦
            let m = p.marked e.to back in
            rw (back, follow)
              (back_edge-Followed s path u e.to i p m (e, at, is, refl, p.nodes e.to m))
        | inr (inr old) ↦
            rw (old, follow) (Followed-same s u e.to i (λ q. inr (λ n. i.good q e.to old)))
      ]
