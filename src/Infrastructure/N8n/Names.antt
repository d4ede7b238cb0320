-- ===== src/Infrastructure/N8n/Names.antt =====
-- A document whose nodes have names of their own keeps them as identifiers.
use mathlib.Core.List.Memᴰ
use mathlib.Core.List.{map-append}
use shingan.Prelude.{
  String, not, ◌≡◌, ◌≢◌, refl, sym, ◌∙◌, ap, subst, inl, inr, none, List, [], ◌∷◌, ◌++◌, map, foldl,
  Memᴰ, lookup, insert, keys, select, str_cases, append_nil, append_one, Memᴰ-concat, Bool-cases,
  Dict,
}
use shingan.Domain.Graph.{Node}
use shingan.Infrastructure.N8n.Schema.{N8nNode}
use shingan.Infrastructure.N8n.NodeTable.{
  Table, empty_table, is_skipped, base_id, n8n_node, store_node, place, add_raw, build_table,
}

-- The nodes that the parser keeps.
abbrev pub kept : List N8nNode → List N8nNode
kept raws = select (λ r. not (is_skipped r)) raws

-- Each has a name, and no two the same.
abbrev pub AreNamed : List N8nNode → Type 0
AreNamed [] = Unit
AreNamed (r ∷ rs) = (r.name ≢ "") × (¬ Memᴰ r.name (map (λ x. x.name) rs)) × AreNamed rs

abbrev pub entry_of : N8nNode → String × Node
entry_of r = (r.name, n8n_node r r.name)

insert-fresh {ℓ} :
    {V : Type ℓ} (k : String) (v : V) (m : Dict V)
    → ¬ Memᴰ k (keys m)
    → (insert k v m ≡ m ++ (k, v) ∷ []) × (lookup k m ≡ none)
unfolding insert lookup
insert-fresh k v [] fresh = (refl, refl)
insert-fresh k v ((j, w) ∷ m) fresh = elim (str_cases j k) [
  | inl (e, s) ↦ absurd (fresh (Memᴰ.head (sym e)))
  | inr (d, s) ↦
      let (grown, missing) = insert-fresh k v m (λ h. fresh (Memᴰ.tail h)) in
      rw s (ap (λ x. (j, w) ∷ x) grown, missing)
]

place-fresh :
    (t : Table) (r : N8nNode)
    → r.name ≢ ""
    → ¬ Memᴰ r.name (keys t.nodes)
    → (place r t).nodes ≡ t.nodes ++ entry_of r ∷ []
unfolding place store_node base_id
place-fresh t r named fresh =
    let (grown, missing) = insert-fresh r.name (n8n_node r r.name) t.nodes fresh in
    elim (str_cases r.name "") [
      | inl (e, s) ↦ absurd (named e)
      | inr (d, s) ↦ rw s (rw missing grown)
    ]

abbrev names : List N8nNode → List String
names = map (λ x. x.name)

place_all :
    (rs : List N8nNode) (t : Table)
    → AreNamed rs
    → ((n : String) → Memᴰ n (names rs) → ¬ Memᴰ n (keys t.nodes))
    → (foldl (λ u r. place r u) t rs).nodes ≡ t.nodes ++ map entry_of rs
place_all [] t named fresh = sym (append_nil t.nodes)
place_all (r ∷ rs) t named fresh =
    let here = place-fresh t r named.0 (fresh r.name (Memᴰ.head refl)) in
    let grown : keys (place r t).nodes ≡ keys t.nodes ++ r.name ∷ [] =
      ap keys here ∙ map-append (λ (e : String × Node). e.0) t.nodes (entry_of r ∷ []) in
    place_all rs (place r t) named.2 (λ n m h.
      elim ((Memᴰ-concat n r.name (keys t.nodes)).0 (subst (Memᴰ n) grown h)) [
        | inl old ↦ fresh n (Memᴰ.tail m) old
        | inr e ↦ named.1 (subst (λ x. Memᴰ x (names rs)) e m)
      ])
    ∙ (ap (λ x. x ++ map entry_of rs) here ∙ append_one t.nodes (entry_of r) (map entry_of rs))

build-kept :
    (raws : List N8nNode) (t : Table)
    → foldl add_raw t raws ≡ foldl (λ u r. place r u) t (kept raws)
unfolding add_raw select
build-kept [] t = refl
build-kept (r ∷ raws) t = elim (Bool-cases (is_skipped r)) [
  | inl s ↦ rw s (build-kept raws t)
  | inr s ↦ rw s (build-kept raws (place r t))
]

-- If the nodes that are kept have different names, none of them empty, the table holds each of them
-- under its name, in the order of the document, and nothing else.
pub build_table-names :
    (raws : List N8nNode)
    → AreNamed (kept raws)
    → (build_table raws).nodes ≡ map entry_of (kept raws)
unfolding build_table
build_table-names raws named =
    ap (λ (t : Table). t.nodes) (build-kept raws empty_table)
    ∙ place_all (kept raws) empty_table named (λ n m h. Memᴰ.not-nil h)
