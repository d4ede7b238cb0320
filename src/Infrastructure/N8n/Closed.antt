-- ===== src/Infrastructure/N8n/Closed.antt =====
-- The table of the nodes stays in order, and every edge joins two of its nodes.
use mathlib.Core.List.Memᴰ
use shingan.Prelude.{
  ℕ, String, ◌==◌, eq_refl, ◌≡◌, refl, sym, ◌∙◌, ap, subst, ◌⊎◌, inl, inr, some, some_inj, List, [],
  ◌∷◌, foldl, Memᴰ, Memᴰ-concat, lookup, lookup-insert, insert, is_some, str_cases, Bool-cases,
  if◌then◌else◌, Dict,
}
use shingan.Domain.Graph.{Node}
use shingan.Infrastructure.N8n.Schema.{N8nNode}
use shingan.Infrastructure.N8n.NodeTable.{
  Table, empty_table, is_skipped, base_id, n8n_node, store_node, place, add_raw, build_table,
}

-- A node of the table has this identifier.
abbrev pub Has : Table → String → Type 0
Has t id = (n : Node) × (lookup id t.nodes ≡ some n)

pub record IsTable (t : Table) : Type 0 where
  pub own_id : (id : String) (n : Node) → lookup id t.nodes ≡ some n → n.id ≡ id
  pub names : (name id : String) → lookup name t.name_to_id ≡ some id → Has t id
  pub uuids : (uuid id : String) → lookup uuid t.uuid_to_id ≡ some id → Has t id
  pub ordered : (id : String) → Memᴰ id t.node_order → Has t id
  pub listed : (id : String) → Has t id → Memᴰ id t.node_order

module _ (raw : N8nNode) (id : String) (t : Table) where
  Has-store_node : (other : String) → Has t other → Has (store_node raw id t) other
  unfolding store_node
  Has-store_node other (n, h) = elim (str_cases id other) [
    | inl (e, s) ↦ (n8n_node raw id, lookup-insert id other (n8n_node raw id) t.nodes ∙ rw s refl)
    | inr (d, s) ↦ (n, lookup-insert id other (n8n_node raw id) t.nodes ∙ rw s h)
  ]

  Has-store_self : Has (store_node raw id t) id
  unfolding store_node
  Has-store_self =
      (n8n_node raw id, lookup-insert id id (n8n_node raw id) t.nodes ∙ rw (eq_refl id) refl)

  -- A written entry of a map to identifiers leads to a node, and so do the others.
  Has-insert :
      (key : String) (m : Dict String)
      → ((k i : String) → lookup k m ≡ some i → Has t i)
      → (k i : String) → lookup k (insert key id m) ≡ some i
      → Has (store_node raw id t) i
  Has-insert key m old k i h = elim (str_cases key k) [
    | inl (e, s) ↦
        let same : some id ≡ some i =
          subst (λ b. (if b then some id else lookup k m) ≡ some i) s
            (sym (lookup-insert key k id m) ∙ h) in
        subst (Has (store_node raw id t)) (some_inj same) Has-store_self
    | inr (d, s) ↦ Has-store_node i (
        old k i (
          subst (λ b. (if b then some id else lookup k m) ≡ some i) s
            (sym (lookup-insert key k id m) ∙ h)))
  ]

  Has-uuids :
      IsTable t
      → (k i : String) → lookup k (store_node raw id t).uuid_to_id ≡ some i
      → Has (store_node raw id t) i
  unfolding store_node
  Has-uuids v k i h = elim (Bool-cases (raw.id == "")) [
    | inl b ↦ Has-store_node i (
        v.uuids k i (
          subst (λ c. lookup k (if c then t.uuid_to_id else insert raw.id id t.uuid_to_id) ≡ some i)
            b h))
    | inr b ↦ Has-insert raw.id t.uuid_to_id v.uuids k i (
        subst (λ c. lookup k (if c then t.uuid_to_id else insert raw.id id t.uuid_to_id) ≡ some i) b
          h)
  ]

  own_id-store_node :
      IsTable t → (i : String) (n : Node) → lookup i (store_node raw id t).nodes ≡ some n → n.id ≡ i
  unfolding store_node n8n_node
  own_id-store_node v i n h = elim (str_cases id i) [
    | inl (e, s) ↦
        let same : some (n8n_node raw id) ≡ some n =
          subst (λ b. (if b then some (n8n_node raw id) else lookup i t.nodes) ≡ some n) s
            (sym (lookup-insert id i (n8n_node raw id) t.nodes) ∙ h) in
        ap (λ (x : Node). x.id) (sym (some_inj same)) ∙ e
    | inr (d, s) ↦ v.own_id i n (
        subst (λ b. (if b then some (n8n_node raw id) else lookup i t.nodes) ≡ some n) s
          (sym (lookup-insert id i (n8n_node raw id) t.nodes) ∙ h))
  ]

  Has-old : (i : String) → Has (store_node raw id t) i → (i ≡ id) ⊎ Has t i
  unfolding store_node
  Has-old i (n, h) = elim (str_cases id i) [
    | inl (e, s) ↦ inl (sym e)
    | inr (d, s) ↦ inr (
      n,
      subst (λ b. (if b then some (n8n_node raw id) else lookup i t.nodes) ≡ some n) s
          (sym (lookup-insert id i (n8n_node raw id) t.nodes) ∙ h),
    )
  ]

  order-store_node :
      (i : String) → Memᴰ i (store_node raw id t).node_order → Memᴰ i t.node_order ⊎ (i ≡ id)
  unfolding store_node
  order-store_node i m = (Memᴰ-concat i id t.node_order).0 m

  order-store_of :
      (i : String) → Memᴰ i t.node_order ⊎ (i ≡ id) → Memᴰ i (store_node raw id t).node_order
  unfolding store_node
  order-store_of i m = (Memᴰ-concat i id t.node_order).1 m

  names-store_node :
      IsTable t
      → (k i : String) → lookup k (store_node raw id t).name_to_id ≡ some i
      → Has (store_node raw id t) i
  unfolding store_node
  names-store_node v = Has-insert raw.name t.name_to_id v.names

  pub store_node-IsTable : IsTable t → IsTable (store_node raw id t)
  store_node-IsTable v = record {
    own_id = own_id-store_node v;
    names = names-store_node v;
    uuids = Has-uuids v;
    ordered = λ i m. elim (order-store_node i m) [
      | inl old ↦ Has-store_node i (v.ordered i old)
      | inr e ↦ subst (Has (store_node raw id t)) (sym e) Has-store_self
    ];
    listed = λ i h.
        order-store_of i (elim (Has-old i h) [ inl e ↦ inr e | inr old ↦ inl (v.listed i old) ]);
  }

counted-IsTable : (m : Dict ℕ) (t : Table) → IsTable t → IsTable (record t { suffix_counter = m })
counted-IsTable m t v = record {
  own_id = v.own_id;
  names = v.names;
  uuids = v.uuids;
  ordered = v.ordered;
  listed = v.listed;
}

add_raw-IsTable : (t : Table) (raw : N8nNode) → IsTable t → IsTable (add_raw t raw)
unfolding add_raw place
add_raw-IsTable t raw v = elim (Bool-cases (is_skipped raw)) [
  | inl s ↦ rw s v
  | inr s ↦ elim (Bool-cases (is_some (lookup (base_id raw) t.nodes))) [
    | inl b ↦ rw (s, b) (store_node-IsTable raw _ _ (counted-IsTable _ t v))
    | inr b ↦ rw (s, b) (store_node-IsTable raw _ t v)
  ]
]

build-IsTable : (raws : List N8nNode) (t : Table) → IsTable t → IsTable (foldl add_raw t raws)
build-IsTable [] t v = v
build-IsTable (raw ∷ raws) t v = build-IsTable raws (add_raw t raw) (add_raw-IsTable t raw v)

-- The first pass leaves every node under its own identifier, both maps lead to nodes, and the order
-- lists the nodes and nothing else.
pub build_table-IsTable : (raws : List N8nNode) → IsTable (build_table raws)
unfolding build_table lookup
build_table-IsTable raws = build-IsTable raws empty_table (record {
  own_id = λ id n h. cc h;
  names = λ name id h. cc h;
  uuids = λ uuid id h. cc h;
  ordered = λ id m. absurd (Memᴰ.not-nil m);
  listed = λ id (n, h). cc h;
})
