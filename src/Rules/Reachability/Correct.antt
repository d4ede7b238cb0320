-- ===== src/Rules/Reachability/Correct.antt =====
-- The search marks exactly the nodes that are reachable, and the rule reports all others.
use mathlib.Core.List.Memᴰ
use mathlib.Core.Bool.{So-prop}
use mathlib.Core.Logic.{∥∥₁_elim}
use shingan.Prelude.{
  String, true, false, ◌==◌, eq_iff, eq_refl, ◌≡◌, refl, sym, subst, ◌↔◌, ◌⊎◌, inl, inr, ⊎_elim,
  List, [], ◌∷◌, map, foldl, Memᴰ, Memᴰ-cons, Memᴰ-select, get_or, contains, contains_iff, length,
  arith, Bool-cases,
}
use shingan.Domain.Graph.{Edge, WorkflowGraph, outgoing_edges}
use shingan.Rules.Reachability.{ai_reverse, Search, visit, expand, start, search}
use shingan.Rules.Reachability.Spec.{HasNode, Link, forward, ai_port, Reach, entry, step}
use shingan.Rules.Reachability.Ports.{mem-ai_reverse, mem_of_ai_port}
use shingan.Rules.Reachability.Rounds.{Marked, Marked-visits, queued-visits, run_rule, work-start}

module _ (g : WorkflowGraph) where
  abbrev targets : String → List String
  targets u = map (λ e. e.to) (outgoing_edges g u)

  Link-of_target : (u v : String) → Memᴰ v (targets u) → Link g u v
  unfolding outgoing_edges
  Link-of_target u v m =
      let (e, at, is) = Memᴰ.of_map (λ (e : Edge). e.to) (outgoing_edges g u) m in
      let (at', f) = (Memᴰ-select e (λ e. e.from == u) g.edges).0 at in
      forward e at' ((eq_iff e.from u).0 f) is

  target_of_forward : (e : Edge) → Memᴰ e g.edges → Memᴰ e.to (targets e.from)
  unfolding outgoing_edges
  target_of_forward e at =
      Memᴰ.map (λ (e : Edge). e.to)
        ((Memᴰ-select e (λ d. d.from == e.from) g.edges).1 (at, eq_refl e.from))

  -- The neighbours that a round offers are the linked nodes.
  offered :
      (u v : String)
      → HasNode g v
      → (Memᴰ v (targets u) ⊎ Memᴰ v (get_or u [] (ai_reverse g))) ↔ Link g u v
  offered u v n = (
    ⊎_elim (Link-of_target u v)
        (λ m. let (e, at, a, t, f) = mem-ai_reverse g u v m in ai_port e at t f a),
    from_link u v n,
  )
    where
      from_link :
          (u v : String)
          → HasNode g v
          → Link g u v
          → Memᴰ v (targets u) ⊎ Memᴰ v (get_or u [] (ai_reverse g))
      from_link u v n (forward e at f t) = inl (
          subst (λ x. Memᴰ v (targets x)) f
            (subst (λ x. Memᴰ x (targets e.from)) t (target_of_forward e at)))
      from_link u v n (ai_port e at t f a) = inr (
          subst (λ x. Memᴰ v (get_or x [] (ai_reverse g))) t
            (subst (λ x. Memᴰ x (get_or e.to [] (ai_reverse g))) f
              (mem_of_ai_port g e at a (subst (HasNode g) (sym f) n))))

  Marked-expand :
      (s : Search) (u w : String)
      → Marked (expand g s u) w ↔ (Marked s w ⊎ Link g u w × HasNode g w)
  unfolding expand
  Marked-expand s u w = (
    λ m.
        ⊎_elim
          (λ old. ⊎_elim inl (λ new. inr ((offered u w new.1).0 (inl new.0), new.1)) (forth.0 old))
          (λ new. inr ((offered u w new.1).0 (inr new.0), new.1)) (back.0 m),
    ⊎_elim (λ m. back.1 (inl (forth.1 (inl m))))
        (λ new.
          ⊎_elim (λ t. back.1 (inl (forth.1 (inr (t, new.1))))) (λ a. back.1 (inr (a, new.1)))
            ((offered u w new.1).1 new.0)),
  )
    where
      first : Search
      first = foldl (visit g) s (targets u)

      forth : Marked first w ↔ (Marked s w ⊎ Memᴰ w (targets u) × HasNode g w)
      forth = Marked-visits g s (targets u) w

      back :
          Marked (expand g s u) w
          ↔ (Marked first w ⊎ Memᴰ w (get_or u [] (ai_reverse g)) × HasNode g w)
      back = Marked-visits g first (get_or u [] (ai_reverse g)) w

  queued-expand :
      (s : Search) (u w : String)
      → Memᴰ w (expand g s u).queue
        ↔ (Memᴰ w s.queue ⊎ Marked (expand g s u) w × (contains s.visited w ≡ false))
  unfolding expand
  queued-expand s u w =
      let first = foldl (visit g) s (targets u) in
      ground (
        arith,
        queued-visits g s (targets u) w,
        queued-visits g first (get_or u [] (ai_reverse g)) w,
        Marked-visits g s (targets u) w,
        Marked-visits g first (get_or u [] (ai_reverse g)) w,
        contains_iff s.visited w,
        contains_iff first.visited w,
      )

  record Inv (s : Search) : Type 0 where
    source : Marked s g.entry_node_id
    queued : (v : String) → Memᴰ v s.queue → Marked s v
    sound : (v : String) → Marked s v → Reach g v
    closed : (u v : String) → Marked s u → Link g u v → HasNode g v → Memᴰ u s.queue ⊎ Marked s v

  Inv-start : Inv (start g)
  Inv-start = record {
    source = Memᴰ.head refl;
    queued = λ v m. m;
    sound = λ v m. entry (Memᴰ.eq_of_singleton m);
    closed = λ u v m _ _. inl m;
  }

  Inv-expand :
      (s : Search) (u : String) (rest : List String)
      → s.queue ≡ u ∷ rest
      → Inv s
      → Inv (expand g (record s { queue = rest }) u)
  Inv-expand s u rest e h =
      let s' = record s { queue = rest } in
      let marks = λ (w : String). Marked-expand s' u w in
      let queue = λ (w : String). queued-expand s' u w in
      let to_u = h.sound u (h.queued u (subst (Memᴰ u) (sym e) (Memᴰ.head refl))) in
      record {
        source = (marks g.entry_node_id).1 (inl h.source);
        queued = λ v q. ground (arith, marks v, queue v, h.queued v, Memᴰ-cons v u rest);
        sound = λ v m. ⊎_elim (h.sound v) (λ new. step to_u new.0 new.1) ((marks v).0 m);
        closed = λ x v m l n.
            let from_old : Marked s x → Memᴰ x (expand g s' u).queue ⊎ Marked (expand g s' u) v =
              λ old. elim (h.closed x v old l n) [
                | inr mv ↦ inr ((marks v).1 (inl mv))
                | inl q ↦ elim (Memᴰ.cases_cons (subst (Memᴰ x) e q)) [
                  | inl p ↦ inr ((marks v).1 (inr (subst (λ y. Link g y v) p l, n)))
                  | inr r ↦ inl ((queue x).1 (inl r))
                ]
              ] in
            elim (Bool-cases (contains s.visited x)) [
              | inl t ↦ from_old ((contains_iff s.visited x).0 t)
              | inr f ↦ inl ((queue x).1 (inr (m, f)))
            ];
      }

  -- With an empty queue the marks are closed under links.
  complete : (t : Search) → Inv t → t.queue ≡ [] → {v : String} → Reach g v → Marked t v
  complete t h e (entry p) = Memᴰ.cast p h.source
  complete t h e (step {u} {v} r l n) = elim (h.closed u v (complete t h e r) l n) [
    | inl waiting ↦ absurd (Memᴰ.not-nil (subst (Memᴰ u) e waiting))
    | inr m ↦ m
  ]

  ends : HasNode g g.entry_node_id → Inv (search g) × ((search g).queue ≡ [])
  unfolding search
  ends n = run_rule g Inv Inv-expand (length g.nodes) (start g) (work-start g n) Inv-start

-- From an entry that is a node of the graph the queue empties within as many rounds as there are
-- nodes, and then a node is marked exactly if some path from the entry reaches it.
pub search_correct :
    (g : WorkflowGraph)
    → HasNode g g.entry_node_id
    → ((search g).queue ≡ [])
      × ((v : String) → (contains (search g).visited v ≡ true) ↔ ∥ Reach g v ∥₁)
search_correct g n =
    let (inv, empty) = ends g n in
    (
      empty,
      λ v. (
        λ m. ∣ inv.sound v ((contains_iff (search g).visited v).0 m) ∣₁,
        λ r.
            ∥∥₁_elim r (So-prop _)
              (λ p. (contains_iff (search g).visited v).1 (complete g (search g) inv empty p)),
      ),
    )
