-- ===== src/Infrastructure/N8n/Joined.antt =====
-- Every edge of the second pass joins two nodes of the table.
use mathlib.Core.List.Memᴰ
use mathlib.Core.List.{flat_map}
use shingan.Prelude.{
  ℕ, suc, String, Bool, false, not, ◌||◌, ◌==◌, ◌≡◌, refl, sym, subst, inl, inr, ⊎_elim, collect,
  some, List, [], ◌∷◌, ◌++◌, Memᴰ, Memᴰ-collect, keys, lookup, get_or, map_option_iff, guard_iff,
  Option-cases, Bool-cases, if◌then◌else◌, starts_with, Dict,
}
use shingan.Prelude.Sort.{sort}
use shingan.Prelude.Text.{str_ltb}
use shingan.Domain.Graph.{Edge}
use shingan.Infrastructure.N8n.Schema.{N8nConnection, N8nConnectionsByPort}
use shingan.Infrastructure.N8n.NodeTable.{Table, resolve_ref}
use shingan.Infrastructure.N8n.Edges.{
  branch_condition, edge_to, main_edge, main_edges, from_condition, ai_edge, ai_edges, source_edges,
  resolve_edges,
}
use shingan.Infrastructure.N8n.Closed.{Has, IsTable}

-- An element of a list of lists put together comes from one of them.
of_flat_map {ℓ κ} :
    {A : Type ℓ} {B : Type κ} (b : B) (f : A → List B) (xs : List A)
    → Memᴰ b (flat_map f xs)
    → (a : A) × Memᴰ b (f a)
unfolding flat_map
of_flat_map b f [] m = absurd (Memᴰ.not-nil m)
of_flat_map b f (x ∷ xs) m = ⊎_elim (λ h. (x, h)) (of_flat_map b f xs) (Memᴰ.append_cases (f x) m)

-- Both ends of an edge are nodes of the table.
abbrev pub Joins : Table → Edge → Type 0
Joins t e = Has t e.from × Has t e.to

module _ (t : Table) (v : IsTable t) where
  Has-resolve : (ref : String) → (resolve_ref t ref == "") ≡ false → Has t (resolve_ref t ref)
  unfolding resolve_ref
  Has-resolve ref h = elim (Option-cases (lookup ref t.name_to_id)) [
    | inr (id, e) ↦
        let found : resolve_ref t ref ≡ id = rw (e, resolve_ref) refl in
        subst (Has t) (sym found) (v.names ref id e)
    | inl e ↦ elim (Option-cases (lookup ref t.uuid_to_id)) [
      | inr (id, f) ↦
          let found : resolve_ref t ref ≡ id = rw (e, resolve_ref) (rw f refl) in
          subst (Has t) (sym found) (v.uuids ref id f)
      | inl f ↦
          let missing : resolve_ref t ref ≡ "" = rw (e, resolve_ref) (rw f refl) in
          cc (subst (λ x. (x == "") ≡ false) missing h)
    ]
  ]

  module _ (from : String) (source : Has t from) where
    main_edge-Joins :
        (cond : String) (c : N8nConnection) (e : Edge)
        → main_edge t from cond c ≡ some e
        → Joins t e
    unfolding main_edge
    main_edge-Joins cond c e h =
        let (set, is) =
          (guard_iff (resolve_ref t c.node == "") (edge_to from cond (resolve_ref t c.node)) e).0
            h in
        subst (Joins t) (sym is) (source, Has-resolve c.node set)

    ai_edge-Joins :
        (port : String) (c : N8nConnection) (e : Edge) → ai_edge t from port c ≡ some e → Joins t e
    unfolding ai_edge
    ai_edge-Joins port c e h =
        let (to, found, is) =
          (map_option_iff (edge_to from port) (lookup c.node t.name_to_id) e).0 h in
        subst (Joins t) (sym is) (source, v.names c.node to found)

    main_edges-Joins :
        (is_condition : Bool) (port : ℕ) (conns : List (List N8nConnection)) (e : Edge)
        → Memᴰ e (main_edges t from is_condition port conns)
        → Joins t e
    unfolding main_edges
    main_edges-Joins is_condition port [] e m = absurd (Memᴰ.not-nil m)
    main_edges-Joins is_condition port (cs ∷ rest) e m =
        let here = main_edge t from (branch_condition is_condition port) in
        elim (Memᴰ.append_cases (collect here cs) m) [
          | inl now ↦
              let (c, _, h) = (Memᴰ-collect e here cs).0 now in
              main_edge-Joins (branch_condition is_condition port) c e h
          | inr later ↦ main_edges-Joins is_condition (suc port) rest e later
        ]

    ai_edges-Joins :
        (p : String × List (List N8nConnection)) (e : Edge) → Memᴰ e (ai_edges t from p) → Joins t e
    unfolding ai_edges
    ai_edges-Joins (port, conns) e m =
        elim (Bool-cases (port == "main" || not (starts_with port "ai_"))) [
          | inl b ↦ absurd (
              Memᴰ.not-nil (
                subst
                  (λ x.
                    Memᴰ e
                      (if x then [] else flat_map (λ cs. collect (ai_edge t from port) cs) conns))
                  b m))
          | inr b ↦
              let (cs, at) =
                of_flat_map e (λ cs. collect (ai_edge t from port) cs) conns
                  (subst
                    (λ x.
                      Memᴰ e
                        (if x then [] else flat_map (λ cs. collect (ai_edge t from port) cs) conns))
                    b m) in
              let (c, _, h) = (Memᴰ-collect e (ai_edge t from port) cs).0 at in
              ai_edge-Joins port c e h
        ]

  source_edges-Joins :
      (connections : Dict N8nConnectionsByPort) (src : String) (e : Edge)
      → Memᴰ e (source_edges t connections src)
      → Joins t e
  unfolding source_edges
  source_edges-Joins connections src e m =
      let from = resolve_ref t src in
      let ports = get_or src [] connections in
      let is_condition = from_condition (lookup from t.nodes) in
      let primary = main_edges t from is_condition 0 (get_or "main" [] ports) in
      let all = primary ++ flat_map (ai_edges t from) ports in
      elim (Bool-cases (from == "")) [
        | inl b ↦ absurd (Memᴰ.not-nil (subst (λ x. Memᴰ e (if x then [] else all)) b m))
        | inr b ↦
            let source = Has-resolve src b in
            elim (Memᴰ.append_cases primary (subst (λ x. Memᴰ e (if x then [] else all)) b m)) [
              | inl h ↦ main_edges-Joins from source is_condition 0 (get_or "main" [] ports) e h
              | inr h ↦
                  let (p, at) = of_flat_map e (ai_edges t from) ports h in
                  ai_edges-Joins from source p e at
            ]
      ]

  pub resolve_edges-Joins :
      (connections : Dict N8nConnectionsByPort) (e : Edge)
      → Memᴰ e (resolve_edges t connections)
      → Joins t e
  unfolding resolve_edges
  resolve_edges-Joins connections e m =
      let (src, at) =
        of_flat_map e (source_edges t connections) (sort str_ltb (keys connections)) m in
      source_edges-Joins connections src e at
