-- ===== src/Rules/Cycle/Spec.antt =====
-- Walks and cycles of a workflow, and what it means that a loop node bounds a place.
use shingan.Prelude.{String, true, false, ◌≡◌, refl, sym, subst, some, Memᴰ, keys, lookup}
use shingan.Prelude.Int.{ℤ, pos, leb_ℤ}
use shingan.Domain.Graph.{Node, Edge, WorkflowGraph}
use shingan.Domain.Config.{get_max_iterations}
use shingan.Rules.LoopGuard.{is_loop_node}

abbrev pub HasNode : WorkflowGraph → String → Type 0
HasNode g v = Memᴰ v (keys g.nodes)

-- An edge between two places, the second a node of the graph.
abbrev pub Link : WorkflowGraph → String → String → Type 0
Link g u v = (e : Edge) × Memᴰ e g.edges × (e.from ≡ u) × (e.to ≡ v) × HasNode g v

-- The walks to `v`, by where they begin.
pub data WalkTo (g : WorkflowGraph) (v : String) : String → Type 0 where
  stay : {u : String} → u ≡ v → WalkTo g v u
  go : {u : String} (w : String) → Link g u w → WalkTo g v w → WalkTo g v u

-- A walk of at least one edge from `v` back to `v`.
abbrev pub Cycle : WorkflowGraph → String → Type 0
Cycle g v = (w : String) × Link g v w × WalkTo g v w

-- Some loop node with a bound below 100 leads to `u`.
pub record IsGuarded (g : WorkflowGraph) (u : String) : Type 0 where
  pub at : String
  pub node : Node
  pub bound : ℤ
  pub present : lookup at g.nodes ≡ some node
  pub is_loop : is_loop_node node.type ≡ true
  pub has_bound : get_max_iterations node ≡ some bound
  pub small : leb_ℤ (pos 100) bound ≡ false
  pub leads : WalkTo g u at

module _ (g : WorkflowGraph) where
  pub walk_on : {v u w : String} → WalkTo g v u → Link g v w → WalkTo g w u
  walk_on {w = w} (stay e) l = go w (subst (λ x. Link g x w) (sym e) l) (stay refl)
  walk_on (go x l r) k = go x l (walk_on r k)

  pub walk_trans : {v u w : String} → WalkTo g v u → WalkTo g w v → WalkTo g w u
  walk_trans {w = w} (stay e) k = subst (WalkTo g w) (sym e) k
  walk_trans (go x l r) k = go x l (walk_trans r k)

  -- A walk closed by one more edge is a cycle at its start.
  pub close_walk : {u v : String} → WalkTo g u v → Link g u v → Cycle g v
  close_walk {u} {v} (stay e) l = (v, subst (λ x. Link g x v) (sym e) l, stay refl)
  close_walk (go x k r) l = (x, k, walk_on r l)

  pub IsGuarded-walk : {u v : String} → IsGuarded g u → WalkTo g v u → IsGuarded g v
  IsGuarded-walk h w = record {
    at = h.at;
    node = h.node;
    bound = h.bound;
    present = h.present;
    is_loop = h.is_loop;
    has_bound = h.has_bound;
    small = h.small;
    leads = walk_trans h.leads w;
  }

-- A place is done if it is guarded, or if all that its edges lead to is.
pub data Done (g : WorkflowGraph) : String → Type 0 where
  guarded : {v : String} → IsGuarded g v → Done g v
  closed : {v : String} → ((w : String) → Link g v w → Done g w) → Done g v

-- A cycle through a place that is done is guarded.
pub Done-Cycle : (g : WorkflowGraph) {v : String} → Done g v → Cycle g v → IsGuarded g v
Done-Cycle g (guarded h) c = h
Done-Cycle g (closed f) (w, l, r) = IsGuarded-walk g (Done-Cycle g (f w l) (close_walk g r l)) r
