-- ===== src/Rules/Reachability/Ports.antt =====
-- The reverse map of the AI ports.
use mathlib.Core.List.Memᴰ
use mathlib.Core.List.{append_assoc, append-nil}
use shingan.Prelude.{
  String, true, ◌&&◌, ◌==◌, eq_iff, ◌≡◌, refl, sym, subst, ◌⊎◌, inl, inr, List, [], ◌∷◌, ◌++◌, map,
  foldl, Memᴰ, Memᴰ-select, Dict, get_or, lookup, lookup-insert, keys, select, arith,
}
use shingan.Domain.Graph.{Edge, WorkflowGraph, outgoing_edges}
use shingan.Rules.Reachability.{is_ai, note_ai, note_node, ai_reverse}
use shingan.Rules.Reachability.Spec.{HasNode}

-- The sources that a list of edges adds for a target.
abbrev ai_sources : String → List Edge → List String
ai_sources c es = map (λ e. e.from) (select (λ e. is_ai e && e.to == c) es)

get_or-note_ai :
    (c : String) (m : Dict (List String)) (e : Edge)
    → get_or c [] (note_ai m e) ≡ get_or c [] m ++ ai_sources c (e ∷ [])
unfolding note_ai select
get_or-note_ai c m e = ground (
  arith,
  lookup-insert e.to c (get_or e.to [] m ++ e.from ∷ []) m,
  eq_iff e.to c,
  append-nil (get_or c [] m),
)

get_or-notes :
    (c : String) (m : Dict (List String)) (es : List Edge)
    → get_or c [] (foldl note_ai m es) ≡ get_or c [] m ++ ai_sources c es
unfolding select
get_or-notes c m [] = sym (append-nil (get_or c [] m))
get_or-notes c m (e ∷ es) = ground (
  arith,
  get_or-notes c (note_ai m e) es,
  get_or-note_ai c m e,
  append_assoc (get_or c [] m) (ai_sources c (e ∷ [])) (ai_sources c es),
)

mem-ai_sources :
    (c v : String) (es : List Edge)
    → Memᴰ v (ai_sources c es)
    → (e : Edge) × Memᴰ e es × (is_ai e ≡ true) × (e.to ≡ c) × (e.from ≡ v)
mem-ai_sources c v es m =
    let (e, at, is) =
      Memᴰ.of_map (λ (e : Edge). e.from) (select (λ e. is_ai e && e.to == c) es) m in
    let (at', t) = (Memᴰ-select e (λ e. is_ai e && e.to == c) es).0 at in
    (e, at', ground arith, ground (arith, eq_iff e.to c), is)

mem_of_ai_source :
    (c : String) (e : Edge) (es : List Edge)
    → Memᴰ e es
    → is_ai e ≡ true
    → e.to ≡ c
    → Memᴰ e.from (ai_sources c es)
mem_of_ai_source c e es m a t =
    Memᴰ.map (λ (e : Edge). e.from)
      ((Memᴰ-select e (λ e. is_ai e && e.to == c) es).1 (m, ground (arith, eq_iff e.to c)))

module _ (g : WorkflowGraph) where
  -- What the loop over the nodes adds for a target: the sources at each node in turn.
  mem-note_nodes :
      (c v : String) (ids : List String) (m : Dict (List String))
      → Memᴰ v (get_or c [] (foldl (note_node g) m ids))
      → Memᴰ v (get_or c [] m)
        ⊎ ((e : Edge) × Memᴰ e g.edges × (is_ai e ≡ true) × (e.to ≡ c) × (e.from ≡ v))
  unfolding note_node outgoing_edges
  mem-note_nodes c v [] m h = inl h
  mem-note_nodes c v (id ∷ ids) m h = elim (mem-note_nodes c v ids (note_node g m id) h) [
    | inr found ↦ inr found
    | inl old ↦
        elim (Memᴰ.append_cases (get_or c [] m)
          (subst (Memᴰ v) (get_or-notes c m (outgoing_edges g id)) old)) [
            | inl older ↦ inl older
            | inr new ↦
                let (e, at, a, t, f) = mem-ai_sources c v (outgoing_edges g id) new in
                inr (e, ((Memᴰ-select e (λ e. e.from == id) g.edges).0 at).0, a, t, f)
          ]
  ]

  keep-note_nodes :
      (c v : String) (ids : List String) (m : Dict (List String))
      → Memᴰ v (get_or c [] m)
      → Memᴰ v (get_or c [] (foldl (note_node g) m ids))
  unfolding note_node
  keep-note_nodes c v [] m h = h
  keep-note_nodes c v (id ∷ ids) m h =
      keep-note_nodes c v ids (note_node g m id)
        (subst (Memᴰ v) (sym (get_or-notes c m (outgoing_edges g id))) (Memᴰ.append_left _ h))

  found-note_nodes :
      (e : Edge) (ids : List String) (m : Dict (List String))
      → Memᴰ e g.edges
      → is_ai e ≡ true
      → Memᴰ e.from ids
      → Memᴰ e.from (get_or e.to [] (foldl (note_node g) m ids))
  unfolding note_node outgoing_edges
  found-note_nodes e [] m at a h = absurd (Memᴰ.not-nil h)
  found-note_nodes e (id ∷ ids) m at a h = elim (Memᴰ.cases_cons h) [
    | inr later ↦ found-note_nodes e ids (note_node g m id) at a later
    | inl here ↦
        let out = (Memᴰ-select e (λ e. e.from == id) g.edges).1 (at, (eq_iff e.from id).1 here) in
        keep-note_nodes e.to e.from ids (note_node g m id) (
          subst (Memᴰ e.from) (sym (get_or-notes e.to m (outgoing_edges g id))) (
            Memᴰ.append_right (get_or e.to [] m)
              (mem_of_ai_source e.to e (outgoing_edges g id) out a refl)))
  ]

  -- The reverse map holds the sources of the AI ports into a node.
  pub mem-ai_reverse :
      (c v : String)
      → Memᴰ v (get_or c [] (ai_reverse g))
      → (e : Edge) × Memᴰ e g.edges × (is_ai e ≡ true) × (e.to ≡ c) × (e.from ≡ v)
  unfolding ai_reverse lookup
  mem-ai_reverse c v h = elim (mem-note_nodes c v (keys g.nodes) [] h) [
    | inl none ↦ absurd (Memᴰ.not-nil none)
    | inr found ↦ found
  ]

  pub mem_of_ai_port :
      (e : Edge)
      → Memᴰ e g.edges
      → is_ai e ≡ true
      → HasNode g e.from
      → Memᴰ e.from (get_or e.to [] (ai_reverse g))
  unfolding ai_reverse
  mem_of_ai_port e at a h = found-note_nodes e (keys g.nodes) [] at a h
