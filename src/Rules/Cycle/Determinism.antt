-- ===== src/Rules/Cycle/Determinism.antt =====
-- The findings do not depend on the order in which a map is visited or a parser lists the edges.
use mathlib.Core.List.Permᴰ
use mathlib.Core.List.{Permᴰ}
use shingan.Prelude.{
  ℕ, zero, suc, String, Bool, not, ◌&&◌, ◌||◌, ◌==◌, eq_iff, ◌≡◌, refl, ap, ap₂, sym, ◌∙◌, Option,
  none, some, List, [], ◌∷◌, ◌++◌, foldl, Dict, IsMap, lookup, lookup_same, keys, is_empty, length,
  contains, any, Memᴰ-select, arith, if◌then◌else◌,
}
use shingan.Prelude.Text.{str_ltb, str_ltb-IsOrder}
use shingan.Prelude.Sort.{
  IsOrder, sort, sort-eq_of_perm, sort_agree, Memᴰ-perm, any-perm, select-perm,
}
use shingan.Domain.Graph.{Node, Edge, WorkflowGraph, outgoing_edges}
use shingan.Domain.Config.{get_max_iterations}
use shingan.Rules.LoopGuard.{is_loop_node}
use shingan.Rules.Cycle.{
  in_progress, completed, Dfs, set_state, fresh, find_parent_control, from_first, exit_flag,
  cycle_has_exit, verdict, other_verdict, loop_verdict, evaluate_cycle, edge_less, back_edge,
  follow, dfs, visit_isolated, from_entry, explore_to, explore, analyze,
}

-- The same nodes and the same edges, in some other order.
pub record SameGraph (g h : WorkflowGraph) : Type 0 where
  pub nodes : Permᴰ g.nodes h.nodes
  pub left_map : IsMap g.nodes
  pub right_map : IsMap h.nodes
  pub edges : Permᴰ g.edges h.edges
  pub entry : g.entry_node_id ≡ h.entry_node_id

-- `edge_less` with the source compared first, which tells all edges apart.
full_less : Edge → Edge → Bool
unfolding edge_less
full_less a b = if a.from == b.from then edge_less a b else str_ltb a.from b.from

full_less-IsOrder : IsOrder full_less
unfolding full_less
full_less-IsOrder = record {
  asym = λ a b. ground (
    arith,
    str_ltb-IsOrder.asym a.from b.from,
    str_ltb-IsOrder.asym a.to b.to,
    str_ltb-IsOrder.asym a.condition b.condition,
    eq_iff a.from b.from,
    eq_iff b.from a.from,
    eq_iff a.to b.to,
    eq_iff b.to a.to,
  );
  trans = λ a b c. ground (
    arith,
    str_ltb-IsOrder.trans a.from b.from c.from,
    str_ltb-IsOrder.trans a.to b.to c.to,
    str_ltb-IsOrder.trans a.condition b.condition c.condition,
    str_ltb-IsOrder.asym a.from b.from,
    str_ltb-IsOrder.asym a.to b.to,
    eq_iff a.from b.from,
    eq_iff b.from c.from,
    eq_iff a.from c.from,
    eq_iff a.to b.to,
    eq_iff b.to c.to,
    eq_iff a.to c.to,
  );
  connected = λ a b. ground (
    arith,
    str_ltb-IsOrder.connected a.from b.from,
    str_ltb-IsOrder.connected a.to b.to,
    str_ltb-IsOrder.connected a.condition b.condition,
    eq_iff a.from b.from,
    eq_iff b.from a.from,
    eq_iff a.to b.to,
    eq_iff b.to a.to,
  );
}

-- Among the edges out of one node the two orders are the same.
outgoing_full :
    (g : WorkflowGraph) (id : String)
    → sort edge_less (outgoing_edges g id) ≡ sort full_less (outgoing_edges g id)
unfolding full_less outgoing_edges
outgoing_full g id = sort_agree edge_less full_less (outgoing_edges g id) λ a b m n.
    let from_a = ((Memᴰ-select a (λ e. e.from == id) g.edges).0 m).1 in
    let from_b = ((Memᴰ-select b (λ e. e.from == id) g.edges).0 n).1 in
    ground (arith, eq_iff a.from id, eq_iff b.from id, eq_iff a.from b.from)

length-perm {ℓ} : {A : Type ℓ} {xs ys : List A} → Permᴰ xs ys → length xs ≡ length ys
length-perm Permᴰ.nil = refl
length-perm (Permᴰ.cons e p) = ap suc (length-perm p)
length-perm (Permᴰ.swap e f) = refl
length-perm (Permᴰ.trans p q) = length-perm p ∙ length-perm q

module _ (g h : WorkflowGraph) (same : SameGraph g h) where
  look : (k : String) → lookup k g.nodes ≡ lookup k h.nodes
  look k =
      lookup_same k g.nodes h.nodes same.left_map same.right_map
        λ e. (Memᴰ-perm same.nodes, Memᴰ-perm (Permᴰ.symm same.nodes))

  out : (id : String) → sort edge_less (outgoing_edges g id) ≡ sort edge_less (outgoing_edges h id)
  unfolding outgoing_edges
  out id =
      outgoing_full g id
      ∙ sort-eq_of_perm full_less full_less-IsOrder (select-perm (λ e. e.from == id) same.edges)
      ∙ sym (outgoing_full h id)

  parent_same : (path : List String) → find_parent_control g path ≡ find_parent_control h path
  unfolding find_parent_control
  parent_same [] = refl
  parent_same (id ∷ path) = ground (arith, parent_same path, look id)

  flags_same : (ids : List String) → any (exit_flag g) ids ≡ any (exit_flag h) ids
  unfolding any
  flags_same [] = refl
  flags_same (id ∷ ids) = ground (arith, flags_same ids, look id)

  exit_same : (c : String) (path : List String) → cycle_has_exit g c path ≡ cycle_has_exit h c path
  unfolding cycle_has_exit
  exit_same c path =
      let inside = c ∷ from_first c path in
      ap₂ ◌||◌
        (any-perm (λ (e : Edge). contains inside e.from && not (contains inside e.to)) same.edges)
        (flags_same inside)

  other_same :
      (c : String) (path : List String) (n : Node) (p : Option Node)
      → other_verdict g c path n p ≡ other_verdict h c path n p
  other_same c path n none = rw (exit_same c path)
  other_same c path n (some p) = refl

  verdict_same :
      (c : String) (path : List String) (o : Option Node) → verdict g c path o ≡ verdict h c path o
  verdict_same c path none = refl
  verdict_same c path (some n) =
      ap (λ x. if is_loop_node n.type then loop_verdict c n (get_max_iterations n) else x)
        (ap (other_verdict g c path n) (parent_same path)
          ∙ other_same c path n (find_parent_control h path))

  evaluate_same :
      (c : String) (path : List String) → evaluate_cycle g c path ≡ evaluate_cycle h c path
  unfolding evaluate_cycle
  evaluate_same c path = verdict_same c path (lookup c g.nodes) ∙ ap (verdict h c path) (look c)

  back_same :
      (c : String) (path : List String) (s : Dfs) → back_edge g c path s ≡ back_edge h c path s
  unfolding back_edge
  back_same c path s = rw (evaluate_same c path)

  follow_same :
      (one two : String → List String → Dfs → Dfs)
      → ((id : String) (path : List String) (s : Dfs) → one id path s ≡ two id path s)
      → (path : List String) (s : Dfs) (e : Edge) → follow g one path s e ≡ follow h two path s e
  unfolding follow
  follow_same one two r path s e = ground (arith, back_same e.to path s, look e.to, r e.to path s)

  foldl_same {ℓ κ} :
      {S : Type ℓ} {A : Type κ} (f k : S → A → S)
      → ((s : S) (a : A) → f s a ≡ k s a)
      → (s : S) (xs : List A) → foldl f s xs ≡ foldl k s xs
  foldl_same f k r s [] = refl
  foldl_same f k r s (x ∷ xs) = ap (λ y. foldl f y xs) (r s x) ∙ foldl_same f k r (k s x) xs

  dfs_same :
      (fuel : ℕ) (id : String) (path : List String) (s : Dfs)
      → dfs g fuel id path s ≡ dfs h fuel id path s
  unfolding dfs
  dfs_same zero id path s = refl
  dfs_same (suc fuel) id path s = ap (set_state id completed) (
      foldl_same (follow g (dfs g fuel) (path ++ id ∷ [])) (follow h (dfs h fuel) (path ++ id ∷ []))
        (follow_same (dfs g fuel) (dfs h fuel) (dfs_same fuel) (path ++ id ∷ []))
        (set_state id in_progress s) (sort edge_less (outgoing_edges g id))
      ∙ ap (foldl (follow h (dfs h fuel) (path ++ id ∷ [])) (set_state id in_progress s)) (out id))

  visit_same :
      (depth : ℕ) (s : Dfs) (id : String)
      → visit_isolated g depth s id ≡ visit_isolated h depth s id
  unfolding visit_isolated
  visit_same depth s id = ground (arith, dfs_same depth id [] s)

  entry_same : (depth : ℕ) → from_entry g depth ≡ from_entry h depth
  unfolding from_entry
  entry_same depth =
      ground (arith, same.entry, look h.entry_node_id, dfs_same depth g.entry_node_id [] fresh)

  keys_same : sort str_ltb (keys g.nodes) ≡ sort str_ltb (keys h.nodes)
  keys_same =
      sort-eq_of_perm str_ltb str_ltb-IsOrder (Permᴰ.map (λ (e : String × Node). e.0) same.nodes)

  explore_to_same : (depth : ℕ) → explore_to g depth ≡ explore_to h depth
  unfolding explore_to
  explore_to_same depth =
      foldl_same (visit_isolated g depth) (visit_isolated h depth) (visit_same depth)
        (from_entry g depth) (sort str_ltb (keys g.nodes))
      ∙ ap₂ (foldl (visit_isolated h depth)) (entry_same depth) keys_same

  explore_same : explore g ≡ explore h
  unfolding explore
  explore_same = ap (explore_to g) (length-perm same.nodes) ∙ explore_to_same (length h.nodes)

is_empty-perm {ℓ} : {V : Type ℓ} {m n : Dict V} → Permᴰ m n → is_empty m ≡ is_empty n
is_empty-perm Permᴰ.nil = refl
is_empty-perm (Permᴰ.cons e p) = refl
is_empty-perm (Permᴰ.swap e f) = refl
is_empty-perm (Permᴰ.trans p q) = is_empty-perm p ∙ is_empty-perm q

-- The findings, their order included, are the same for every order of the nodes and of the edges.
pub analyze_deterministic :
    (g h : WorkflowGraph) → SameGraph g h → analyze (some g) ≡ analyze (some h)
unfolding analyze
analyze_deterministic g h same =
    ap₂ (λ empty (s : Dfs). if empty then [] else s.findings) (is_empty-perm same.nodes)
      (explore_same g h same)
