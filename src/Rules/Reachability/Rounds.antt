-- ===== src/Rules/Reachability/Rounds.antt =====
-- One round of the search: what it marks and queues, and that the rounds end.
use mathlib.Core.List.Memᴰ
use shingan.Prelude.{
  ℕ, zero, suc, ◌+◌, ◌≤◌, ◌<◌, String, true, false, not, eq_iff, ◌≡◌, refl, ap, ◌↔◌, ◌⊎◌, inl, inr,
  ⊎_elim, List, [], ◌∷◌, map, foldl, Memᴰ, Memᴰ-cons, Memᴰ-concat, get_or, keys, List-cases,
  contains, contains_iff, select, length, length-append, length-select-le, Dict, arith,
}
use shingan.Domain.Graph.{Node, WorkflowGraph, outgoing_edges}
use shingan.Rules.Reachability.{ai_reverse, Search, visit, expand, run, start}
use shingan.Rules.Reachability.Spec.{HasNode}

abbrev pub Marked : Search → String → Type 0
Marked s v = Memᴰ v s.visited

module _ (g : WorkflowGraph) where
  -- Visiting targets marks exactly those that are nodes.
  pub Marked-visits :
      (s : Search) (ts : List String) (w : String)
      → Marked (foldl (visit g) s ts) w ↔ (Marked s w ⊎ Memᴰ w ts × HasNode g w)
  unfolding visit
  Marked-visits s [] w = (inl, ⊎_elim (λ m. m) (λ new. absurd (Memᴰ.not-nil new.0)))
  Marked-visits s (t ∷ ts) w = ground (
    arith,
    Marked-visits (visit g s t) ts w,
    Memᴰ-cons w t ts,
    Memᴰ-cons w t s.visited,
    contains_iff s.visited t,
    contains_iff s.visited w,
    contains_iff (keys g.nodes) t,
  )

  -- It queues exactly what it newly marks.
  pub queued-visits :
      (s : Search) (ts : List String) (w : String)
      → Memᴰ w (foldl (visit g) s ts).queue
        ↔ (Memᴰ w s.queue ⊎ Marked (foldl (visit g) s ts) w × (contains s.visited w ≡ false))
  unfolding visit
  queued-visits s [] w =
      (inl, ⊎_elim (λ m. m) (λ new. cc ((contains_iff s.visited w).1 new.0, new.1)))
  queued-visits s (t ∷ ts) w = ground (
    arith,
    queued-visits (visit g s t) ts w,
    Marked-visits (visit g s t) ts w,
    Memᴰ-cons w t s.visited,
    Memᴰ-concat w t s.queue,
    contains_iff s.visited t,
    contains_iff s.visited w,
    contains_iff (t ∷ s.visited) w,
  )

  -- The nodes not yet visited.
  abbrev unseen : List String → List String → ℕ
  unseen visited ks = length (select (λ k. not (contains visited k)) ks)

  unseen_mono : (t : String) (vs ks : List String) → unseen (t ∷ vs) ks ≤ unseen vs ks
  unfolding select contains
  unseen_mono t vs [] = omega arith
  unseen_mono t vs (k ∷ ks) = ground (arith, unseen_mono t vs ks)

  unseen-cons :
      (t : String) (vs ks : List String)
      → contains ks t ≡ true
      → contains vs t ≡ false
      → unseen (t ∷ vs) ks < unseen vs ks
  unfolding select contains
  unseen-cons t vs [] h n = cc
  unseen-cons t vs (k ∷ ks) h n =
      ground (arith, unseen-cons t vs ks, unseen_mono t vs ks, eq_iff t k, eq_iff k t)

  -- A visit moves one node from the unseen to the queue.
  abbrev pub work : Search → ℕ
  work s = unseen s.visited (keys g.nodes) + length s.queue

  work-visits : (s : Search) (ts : List String) → work (foldl (visit g) s ts) ≤ work s
  unfolding visit
  work-visits s [] = omega arith
  work-visits s (t ∷ ts) = ground (
    arith,
    work-visits (visit g s t) ts,
    unseen-cons t s.visited (keys g.nodes),
    length-append s.queue (t ∷ []),
  )

  work-expand : (s : Search) (u : String) → work (expand g s u) ≤ work s
  unfolding expand
  work-expand s u =
      let first = foldl (visit g) s (map (λ e. e.to) (outgoing_edges g u)) in
      omega (
        arith,
        work-visits s (map (λ e. e.to) (outgoing_edges g u)),
        work-visits first (get_or u [] (ai_reverse g)),
      )

  -- An invariant of the rounds holds at the end, where the queue is empty.
  pub run_rule {ℓ} :
      (P : Search → Type ℓ)
      → ((s : Search) (u : String) (rest : List String)
          → s.queue ≡ u ∷ rest
          → P s
          → P (expand g (record s { queue = rest }) u))
      → (fuel : ℕ) (s : Search) → work s ≤ fuel
      → P s
      → P (run g fuel s) × ((run g fuel s).queue ≡ [])
  unfolding run
  run_rule P keep zero s h p = (p, ground arith)
  run_rule P keep (suc fuel) s h p = elim (List-cases s.queue) [
    | inl empty ↦ rw (empty, run) (p, empty)
    | inr (u, rest, e) ↦
        let s' = record s { queue = rest } in
        rw (e, run)
          (run_rule P keep fuel (expand g s' u) (omega (arith, work-expand s' u, ap length e))
            (keep s u rest e p))
  ]

  length-keys : (ns : Dict Node) → length (keys ns) ≡ length ns
  length-keys [] = refl
  length-keys (n ∷ ns) = ap suc (length-keys ns)

  pub work-start : HasNode g g.entry_node_id → work (start g) ≤ length g.nodes
  unfolding contains
  work-start n = omega (
    arith,
    unseen-cons g.entry_node_id [] (keys g.nodes)
        ((contains_iff (keys g.nodes) g.entry_node_id).1 n) refl,
    length-select-le (λ k. not (contains [] k)) (keys g.nodes),
    length-keys g.nodes,
  )
