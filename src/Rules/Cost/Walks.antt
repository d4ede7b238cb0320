-- ===== src/Rules/Cost/Walks.antt =====
-- The search marks only nodes from which a cycle can be reached.
use mathlib.Core.List.Memᴰ
use shingan.Prelude.{
  ℕ, zero, suc, String, ◌≡◌, refl, sym, ◌∙◌, subst, inl, inr, List, [], ◌∷◌, ◌++◌, foldl, Memᴰ,
  Memᴰ-concat, Memᴰ-select, lookup, key_of_lookup, eq_iff, ◌==◌, Option-cases, str_cases,
}
use shingan.Domain.Graph.{Edge, WorkflowGraph, outgoing_edges}
use shingan.Rules.Cycle.{unvisited, in_progress, completed, Dfs}
use shingan.Rules.Cycle.Spec.{HasNode, Link, WalkTo, stay, Cycle, walk_on}
use shingan.Rules.Cycle.Search.{state_cases}
use shingan.Rules.Cycle.Marks.{mark_self, mark_other, Later, Later-refl, Later-trans}
use shingan.Rules.Cost.{Loops, state_at, mark, step, dfs}

-- The states of the search, as those of the search for cycles.
abbrev pub states : Loops → Dfs
states s = record { state = s.state; seen_cycle = []; findings = [] }

-- A walk leads from the node to a place that lies on a cycle.
abbrev pub LeadsToCycle : WorkflowGraph → String → Type 0
LeadsToCycle g v = (u : String) × WalkTo g u v × Cycle g u

module _ (g : WorkflowGraph) where
  -- The nodes in progress are on the stack, which is a walk to a node.
  pub record IsStack (s : Loops) (stack : List String) (u : String) : Type 0 where
    pub marked : (v : String) → state_at s v ≡ in_progress → Memᴰ v stack
    pub leads : (v : String) → Memᴰ v stack → WalkTo g u v
    pub nodes : (v : String) → Memᴰ v stack → HasNode g v

  abbrev pub Sound : Loops → Type 0
  Sound s = (v : String) → Memᴰ v s.in_loop → LeadsToCycle g v

  -- What a stretch of the search leaves.
  pub record Searched (s t : Loops) : Type 0 where
    pub later : Later (states s) (states t)
    pub sound : Sound t

  abbrev pub Visits : (String → List String → Loops → Loops) → Type 0
  Visits recurse =
      (id : String) (stack : List String) (s : Loops)
      → state_at s id ≡ unvisited
      → HasNode g id
      → Sound s
      → IsStack s stack id
      → Searched s (recurse id stack s)

  pub IsStack-Later :
      (s t : Loops) (stack : List String) (u : String)
      → Later (states s) (states t)
      → IsStack s stack u
      → IsStack t stack u
  IsStack-Later s t stack u l k = record {
    marked = λ v p. k.marked v (l.progress v p);
    leads = k.leads;
    nodes = k.nodes;
  }

  -- The stack, for a node that an edge leads to.
  pub IsStack-edge :
      (s : Loops) (stack : List String) (u v : String)
      → Link g u v
      → IsStack s stack u
      → IsStack s stack v
  IsStack-edge s stack u v l k = record {
    marked = k.marked;
    leads = λ x m. walk_on g (k.leads x m) l;
    nodes = k.nodes;
  }

  pub IsStack-Push :
      (s : Loops) (stack : List String) (id : String)
      → HasNode g id
      → IsStack s stack id
      → IsStack (mark id in_progress s) (stack ++ id ∷ []) id
  IsStack-Push s stack id node k = record {
    marked = λ v p. (Memᴰ-concat v id stack).1 (elim (str_cases id v) [
      | inl (e, t) ↦ inr (sym e)
      | inr (d, f) ↦ inl (k.marked v (sym (mark_other id v in_progress (states s) d) ∙ p))
    ]);
    leads = λ v m. elim ((Memᴰ-concat v id stack).0 m) [ inl old ↦ k.leads v old | inr e ↦ stay e ];
    nodes = λ v m. elim ((Memᴰ-concat v id stack).0 m) [
      | inl old ↦ k.nodes v old
      | inr e ↦ subst (HasNode g) (sym e) node
    ];
  }

  module _ (recurse : String → List String → Loops → Loops) (visits : Visits recurse)
      (stack : List String) (u : String) where
    pub step-Searched :
        (s : Loops) (e : Edge)
        → Memᴰ e g.edges
        → e.from ≡ u
        → Sound s
        → IsStack s stack u
        → Searched s (step g recurse stack s e)
    unfolding step
    step-Searched s e at is h k = elim (state_cases (state_at s e.to)) [
      | inr (inr old) ↦ rw (old, step) (record { later = Later-refl (states s); sound = h })
      | inr (inl back) ↦
          let target = k.marked e.to back in
          let link : Link g u e.to = (e, at, is, refl, k.nodes e.to target) in
          let cycle : Cycle g u = (e.to, link, k.leads e.to target) in
          rw (back, step)
            (record {
              later = Later-refl (states s);
              sound = λ v m. elim (Memᴰ.append_cases stack m) [
                | inl on ↦ (u, k.leads v on, cycle)
                | inr old ↦ h v old
              ];
            })
      | inl new ↦ elim (Option-cases (lookup e.to g.nodes)) [
        | inl gone ↦ rw (new, step) (rw gone (record { later = Later-refl (states s); sound = h }))
        | inr (n, found) ↦
            let node = key_of_lookup e.to n g.nodes found in
            let link : Link g u e.to = (e, at, is, refl, node) in
            rw (new, step)
              (rw found (visits e.to stack s new node h (IsStack-edge s stack u e.to link k)))
      ]
    ]

    pub steps-Searched :
        (es : List Edge)
        → ((e : Edge) → Memᴰ e es → Memᴰ e g.edges × (e.from ≡ u))
        → (s : Loops) → Sound s
        → IsStack s stack u
        → Searched s (foldl (step g recurse stack) s es)
    steps-Searched [] out s h k = record { later = Later-refl (states s); sound = h }
    steps-Searched (e ∷ es) out s h k =
        let (at, is) = out e (Memᴰ.head refl) in
        let first = step-Searched s e at is h k in
        let t = step g recurse stack s e in
        let rest =
          steps-Searched es (λ x m. out x (Memᴰ.tail m)) t first.sound
            (IsStack-Later s t stack u first.later k) in
        record { later = Later-trans first.later rest.later; sound = rest.sound }

  pub out_edges :
      (id : String) (e : Edge) → Memᴰ e (outgoing_edges g id) → Memᴰ e g.edges × (e.from ≡ id)
  unfolding outgoing_edges
  out_edges id e m =
      let (at, f) = (Memᴰ-select e (λ d. d.from == id) g.edges).0 m in (at, (eq_iff e.from id).0 f)

  -- What a call leaves, from what its loop leaves.
  Searched-call :
      (id : String) (s t : Loops)
      → state_at s id ≡ unvisited
      → Searched (mark id in_progress s) t
      → Searched s (mark id completed t)
  Searched-call id s t new r = record {
    later = record {
      kept = λ v old. elim (str_cases id v) [
        | inl (e, b) ↦ absurd (old (subst (λ x. state_at s x ≡ unvisited) e new))
        | inr (d, b) ↦
            let begun = mark_other id v in_progress (states s) d in
            mark_other id v completed (states t) d
            ∙ (r.later.kept v (λ q. old (sym begun ∙ q)) ∙ begun)
      ];
      progress = λ v p. elim (str_cases id v) [
        | inl (e, b) ↦ let done = mark_self id completed (states t) in cc done
        | inr (d, b) ↦
            let q = r.later.progress v (sym (mark_other id v completed (states t) d) ∙ p) in
            sym (mark_other id v in_progress (states s) d) ∙ q
      ];
      grows = λ e. e;
    };
    sound = r.sound;
  }

  pub dfs-Visits : (fuel : ℕ) → Visits (dfs g fuel)
  unfolding dfs
  dfs-Visits zero id stack s new node h k = record { later = Later-refl (states s); sound = h }
  dfs-Visits (suc fuel) id stack s new node h k =
      let pushed = stack ++ id ∷ [] in
      let begun = mark id in_progress s in
      Searched-call id s (foldl (step g (dfs g fuel) pushed) begun (outgoing_edges g id)) new (
        steps-Searched (dfs g fuel) (dfs-Visits fuel) pushed id (outgoing_edges g id) (out_edges id)
          begun h (IsStack-Push s stack id node k))
