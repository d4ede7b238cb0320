-- ===== src/Infrastructure/N8n/Reached.antt =====
-- Where the search for unreachable nodes starts in a parsed document.
use mathlib.Core.List.Memᴰ
use shingan.Prelude.{
  String, Bool, not, contains, true, false, eq_iff, ◌≡◌, refl, sym, ◌∙◌, subst, ◌⊎◌, ◌↔◌, inl, inr,
  Option, none, some, List, [], ◌∷◌, map, foldl, Memᴰ, ◌≤◌, length, Memᴰ-select, lookup,
  lookup-insert, insert, key_of_lookup, keys, arith, str_cases, Bool-cases, if◌then◌else◌, Dict,
}
use shingan.Domain.Config.{get_tool_category}
use shingan.Domain.Graph.{Node, Edge}
use shingan.Rules.Reachability.Spec.{forward, Reach, entry, step}
use shingan.Infrastructure.N8n.{virtual_root, root_node, root_edge, enter, of_workflow}
use shingan.Infrastructure.N8n.Schema.{N8nWorkflow}
use shingan.Infrastructure.N8n.NodeTable.{Table, build_table}
use shingan.Infrastructure.N8n.Edges.{resolve_edges}
use shingan.Infrastructure.N8n.Entry.{
  Degrees, count_edge, is_trigger, is_root, entry_root_ids, first, pick_entry_node,
}
use shingan.Infrastructure.N8n.Degrees.{IsHead, degrees, is_root_iff}
use shingan.Infrastructure.N8n.Closed.{Has, IsTable, build_table-IsTable}

first-cases :
    (p : String → Bool) (xs : List String)
    → ((first p xs ≡ none) × ((x : String) → Memᴰ x xs → p x ≡ false))
      ⊎ ((x : String) × (first p xs ≡ some x) × Memᴰ x xs × (p x ≡ true))
unfolding first
first-cases p [] = inl (refl, λ x m. absurd (Memᴰ.not-nil m))
first-cases p (y ∷ ys) = elim (Bool-cases (p y)) [
  | inl t ↦ inr (y, rw t refl, Memᴰ.head refl, t)
  | inr f ↦ elim (first-cases p ys) [
    | inl (e, nowhere) ↦ inl (
      rw f e,
      λ x m. elim (Memᴰ.cases_cons m) [ inl same ↦ rw same f | inr there ↦ nowhere x there ],
    )
    | inr (x, e, m, t) ↦ inr (x, rw f e, Memᴰ.tail m, t)
  ]
]

is_root-trigger :
    (d : Degrees) (id : String) (o : Option Node) → is_trigger o ≡ true → is_root d id o ≡ true
unfolding is_root is_trigger
is_root-trigger d id none h = cc h
is_root-trigger d id (some n) h = ground (arith, h)

-- A trigger is one of the roots.
root_of_trigger :
    (nodes : Dict Node) (order : List String) (edges : List Edge) (id : String)
    → Memᴰ id order
    → is_trigger (lookup id nodes) ≡ true
    → Memᴰ id (entry_root_ids nodes order edges)
unfolding entry_root_ids
root_of_trigger nodes order edges id m h =
    let d = foldl count_edge (record { main_in = []; main_out = [] }) edges in
    (Memᴰ-select id (λ i. is_root d i (lookup i nodes)) order).1
      (m, is_root-trigger d id (lookup id nodes) h)

listed_of_root :
    (nodes : Dict Node) (order : List String) (edges : List Edge) (id : String)
    → Memᴰ id (entry_root_ids nodes order edges)
    → Memᴰ id order
unfolding entry_root_ids
listed_of_root nodes order edges id m =
    let d = foldl count_edge (record { main_in = []; main_out = [] }) edges in
    ((Memᴰ-select id (λ i. is_root d i (lookup i nodes)) order).0 m).0

-- The entry that is picked is one of the nodes, and a trigger if there is one.
pub pick-listed :
    (nodes : Dict Node) (order : List String) (edges : List Edge) (id : String)
    → Memᴰ id order
    → Memᴰ (pick_entry_node nodes order edges) order
unfolding pick_entry_node
pick-listed nodes [] edges id m = absurd (Memᴰ.not-nil m)
pick-listed nodes (i ∷ order) edges id m =
    elim (first-cases (λ x. is_trigger (lookup x nodes)) (i ∷ order)) [
      | inr (x, e, at, t) ↦ rw (e, pick_entry_node) at
      | inl (e, nowhere) ↦
          elim (first-cases (λ x. not (contains (map (λ d. d.to) edges) x)) (i ∷ order)) [
            | inr (x, f, at, t) ↦ rw (e, pick_entry_node) (rw f at)
            | inl (f, all) ↦ rw (e, pick_entry_node) (rw f (Memᴰ.head refl))
          ]
    ]

pick-trigger :
    (nodes : Dict Node) (order : List String) (edges : List Edge) (id : String)
    → Memᴰ id order
    → is_trigger (lookup id nodes) ≡ true
    → is_trigger (lookup (pick_entry_node nodes order edges) nodes) ≡ true
unfolding pick_entry_node
pick-trigger nodes [] edges id m h = absurd (Memᴰ.not-nil m)
pick-trigger nodes (i ∷ order) edges id m h =
    elim (first-cases (λ x. is_trigger (lookup x nodes)) (i ∷ order)) [
      | inl (e, nowhere) ↦ cc (nowhere id m, h)
      | inr (x, e, at, t) ↦ rw (e, pick_entry_node) t
    ]

pub HasNode-insert :
    (nodes : Dict Node) (id : String) (n : Node)
    → lookup id nodes ≡ some n
    → Memᴰ id (keys (insert virtual_root root_node nodes))
HasNode-insert nodes id n h =
    let read = lookup-insert virtual_root id root_node nodes in
    elim (str_cases virtual_root id) [
      | inl (e, s) ↦ key_of_lookup id root_node _ (read ∙ rw s refl)
      | inr (d, s) ↦ key_of_lookup id n _ (read ∙ rw s h)
    ]

-- One edge leads from the added entry to each of two or more roots.
Reach-root :
    (t : Table) (edges : List Edge) (a b : String) (more : List String) (id : String)
    → Has t id
    → Memᴰ id (a ∷ b ∷ more)
    → Reach (enter t edges (a ∷ b ∷ more)) id
unfolding enter
Reach-root t edges a b more id (n, h) m =
    step (entry refl)
      (forward (root_edge id) (Memᴰ.append_right edges (Memᴰ.map root_edge m)) refl refl)
      (HasNode-insert t.nodes id n h)

module _ (t : Table) (v : IsTable t) (edges : List Edge) where
  -- The triggers are among these roots, which are nodes.
  record AreRoots (roots : List String) : Type 0 where
    nodes : (id : String) → Memᴰ id roots → Has t id
    triggers :
        (id : String) → Memᴰ id t.node_order → is_trigger (lookup id t.nodes) ≡ true → Memᴰ id roots

  trigger_of :
      (id : String) (n : Node)
      → lookup id t.nodes ≡ some n
      → get_tool_category n ≡ "trigger"
      → is_trigger (lookup id t.nodes) ≡ true
  unfolding is_trigger
  trigger_of id n h c = rw h ((eq_iff (get_tool_category n) "trigger").1 c)

  Reach-trigger :
      (roots : List String)
      → AreRoots roots
      → (id : String) (n : Node) → lookup id (enter t edges roots).nodes ≡ some n
      → get_tool_category n ≡ "trigger"
      → Reach (enter t edges roots) id
  unfolding enter
  Reach-trigger [] r id n h c =
      absurd (Memᴰ.not-nil (r.triggers id (v.listed id (n, h)) (trigger_of id n h c)))
  Reach-trigger (a ∷ []) r id n h c =
      let listed = v.listed id (n, h) in
      let picked = pick_entry_node t.nodes t.node_order edges in
      let first_is =
        r.triggers picked (pick-listed t.nodes t.node_order edges id listed)
          (pick-trigger t.nodes t.node_order edges id listed (trigger_of id n h c)) in
      let this_is = r.triggers id listed (trigger_of id n h c) in
      entry (Memᴰ.eq_of_singleton this_is ∙ sym (Memᴰ.eq_of_singleton first_is))
  Reach-trigger (a ∷ b ∷ more) r id n h c =
      let read = lookup-insert virtual_root id root_node t.nodes in
      elim (str_cases virtual_root id) [
        | inl (e, s) ↦ entry (sym e)
        | inr (d, s) ↦
            let old : lookup id t.nodes ≡ some n =
              subst (λ x. (if x then some root_node else lookup id t.nodes) ≡ some n) s
                (sym read ∙ h) in
            let m = r.triggers id (v.listed id (n, old)) (trigger_of id n old c) in
            Reach-root t edges a b more id (n, old) m
      ]

-- Every trigger of a parsed document is reached from its entry.
pub Reach-of_workflow :
    (wf : N8nWorkflow) (id : String) (n : Node)
    → lookup id (of_workflow wf).nodes ≡ some n
    → get_tool_category n ≡ "trigger"
    → Reach (of_workflow wf) id
unfolding of_workflow
Reach-of_workflow wf =
    let t = build_table wf.nodes in
    let v = build_table-IsTable wf.nodes in
    let edges = resolve_edges t wf.connections in
    Reach-trigger t v edges (entry_root_ids t.nodes t.node_order edges) (record {
      nodes = λ id m. v.ordered id (listed_of_root t.nodes t.node_order edges id m);
      triggers = root_of_trigger t.nodes t.node_order edges;
    })

-- The identifiers that the parser takes for entries, and what makes a node one of them.
abbrev pub roots_of : N8nWorkflow → List String
roots_of wf =
    let t = build_table wf.nodes in
    entry_root_ids t.nodes t.node_order (resolve_edges t wf.connections)

abbrev pub IsStart : N8nWorkflow → String → Type 0
IsStart wf id =
    let t = build_table wf.nodes in
    (n : Node) × (lookup id t.nodes ≡ some n)
    × ((get_tool_category n ≡ "trigger") ⊎ IsHead (resolve_edges t wf.connections) id)

-- The roots are the triggers and the heads of the flows.
pub roots_of-IsStart : (wf : N8nWorkflow) (id : String) → Memᴰ id (roots_of wf) ↔ IsStart wf id
unfolding entry_root_ids
roots_of-IsStart wf id =
    let t = build_table wf.nodes in
    let v = build_table-IsTable wf.nodes in
    let edges = resolve_edges t wf.connections in
    let test = λ (i : String). is_root (degrees edges i) i (lookup i t.nodes) in
    let found = Memᴰ-select id test t.node_order in
    (
      λ m.
          let (listed, passes) = found.0 m in
          let (n, h) = v.ordered id listed in
          (
            n,
            h,
            (is_root_iff edges id n).0
                (subst (λ o. is_root (degrees edges id) id o ≡ true) h passes),
          ),
      λ (n, h, starts). found.1 (
        v.listed id (n, h),
        subst (λ o. is_root (degrees edges id) id o ≡ true) (sym h)
            ((is_root_iff edges id n).1 starts),
      ),
    )

enter-Reach :
    (t : Table) (edges : List Edge) (roots : List String) (id : String)
    → 2 ≤ length roots
    → Has t id
    → Memᴰ id roots
    → Reach (enter t edges roots) id
enter-Reach t edges [] id two has m = absurd (omega arith)
enter-Reach t edges (a ∷ []) id two has m = absurd (omega arith)
enter-Reach t edges (a ∷ b ∷ more) id two has m = Reach-root t edges a b more id has m

-- Of two or more roots each is reached.
pub Reach-IsStart :
    (wf : N8nWorkflow) (id : String)
    → 2 ≤ length (roots_of wf)
    → IsStart wf id
    → Reach (of_workflow wf) id
unfolding of_workflow
Reach-IsStart wf id two (n, h, starts) =
    let t = build_table wf.nodes in
    enter-Reach t (resolve_edges t wf.connections) (roots_of wf) id two (n, h)
      ((roots_of-IsStart wf id).1 (n, h, starts))
