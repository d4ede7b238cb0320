-- ===== src/Rules/Cycle/Verdict.antt =====
-- What `evaluate_cycle` decides: which node it names, and when it stays silent.
use shingan.Prelude.{
  String, true, false, ◌==◌, ◌≡◌, refl, sym, ap, subst, ◌∙◌, if_cases, ◌⊎◌, inl, inr, Option, none,
  some, Option-cases, List, [], ◌∷◌, Memᴰ, lookup, arith, if◌then◌else◌,
}
use shingan.Prelude.Int.{ℤ, pos, leb_ℤ}
use shingan.Domain.Value.{Value}
use shingan.Domain.Finding.{Finding, empty_finding}
use shingan.Domain.Graph.{Node, WorkflowGraph}
use shingan.Domain.Config.{get_max_iterations, raw_config_value}
use shingan.Rules.LoopGuard.{is_loop_node}
use shingan.Rules.Cycle.{
  rule_name, find_parent_control, cycle_has_exit, evaluate_cycle, verdict, other_verdict,
  loop_verdict, parent_verdict, loop_high, loop_unset, inside_high, parent_unset, with_exit,
  without_guard,
}

module _ (g : WorkflowGraph) where
  -- The parent is a loop node that stands on the path.
  pub parent_on_path :
      (path : List String) (n : Node)
      → find_parent_control g path ≡ some n
      → (id : String) × Memᴰ id path × (lookup id g.nodes ≡ some n) × (is_loop_node n.type ≡ true)
  unfolding find_parent_control
  parent_on_path [] n h = cc
  parent_on_path (id ∷ path) n h = elim (Option-cases (find_parent_control g path)) [
    | inl alone ↦ (id, Memᴰ.head refl, ground arith, ground arith)
    | inr (m, e) ↦
        let (id', at, found, loops) = parent_on_path path m e in
        (id', Memᴰ.tail at, ground arith, ground arith)
  ]

  abbrev Named : String → Finding → Type 0
  Named c f = (f.rule_name ≡ rule_name) × (f.node_id ≡ c)

  -- A bound that is set and below 100.
  abbrev Small : Option ℤ → Type 0
  Small o = (k : ℤ) × (o ≡ some k) × (leb_ℤ (pos 100) k ≡ false)

  high_cases :
      (c : String) (f : Finding) (k : ℤ)
      → Named c f
      → Small (some k) × ((if leb_ℤ (pos 100) k then f else empty_finding) ≡ empty_finding)
        ⊎ Named c (if leb_ℤ (pos 100) k then f else empty_finding)
  high_cases c f k named = elim (if_cases (leb_ℤ (pos 100) k) f empty_finding) [
    | inl (t, e) ↦ inr (subst (Named c) (sym e) named)
    | inr (small, e) ↦ inl ((k, refl, small), e)
  ]

  loop_cases :
      (c : String) (n : Node) (o : Option ℤ)
      → Small o × (loop_verdict c n o ≡ empty_finding) ⊎ Named c (loop_verdict c n o)
  loop_cases c n (some k) = high_cases c (loop_high c k) k (refl, refl)
  loop_cases c n none = inr (unset (raw_config_value n "max_iterations"))
    where
      unset : (v : Option Value) → Named c (loop_unset c v)
      unset none = (refl, refl)
      unset (some v) = (refl, refl)

  parent_cases :
      (c : String) (n : Node) (o : Option ℤ)
      → Small o × (parent_verdict c n o ≡ empty_finding) ⊎ Named c (parent_verdict c n o)
  parent_cases c n (some k) = high_cases c (inside_high c n) k (refl, refl)
  parent_cases c n none = inr (unset (raw_config_value n "max_iterations"))
    where
      unset : (v : Option Value) → Named c (parent_unset c n v)
      unset none = (refl, refl)
      unset (some v) = (refl, refl)

  -- A loop node with a bound below 100 that is the node of the cycle or stands on the path.
  pub record Bounded (c : String) (path : List String) : Type 0 where
    pub at : String
    pub node : Node
    pub where_at : (at ≡ c) ⊎ Memᴰ at path
    pub present : lookup at g.nodes ≡ some node
    pub loops : is_loop_node node.type ≡ true
    pub small : Small (get_max_iterations node)

  other_cases :
      (c : String) (path : List String) (n : Node) (p : Option Node)
      → find_parent_control g path ≡ p
      → Bounded c path × (other_verdict g c path n p ≡ empty_finding)
        ⊎ Named c (other_verdict g c path n p)
  other_cases c path n none h =
      elim (if_cases (cycle_has_exit g c path) (with_exit c n) (without_guard c n)) [
        | inl (t, e) ↦ inr (subst (Named c) (sym e) (refl, refl))
        | inr (f, e) ↦ inr (subst (Named c) (sym e) (refl, refl))
      ]
  other_cases c path n (some p) h = elim (parent_cases c p (get_max_iterations p)) [
    | inr named ↦ inr named
    | inl (small, e) ↦
        let (id, at, found, loops) = parent_on_path path p h in
        inl (
          record {
            at = id;
            node = p;
            where_at = inr at;
            present = found;
            loops = loops;
            small = small;
          },
          e,
        )
  ]

  verdict_cases :
      (c : String) (path : List String) (o : Option Node)
      → lookup c g.nodes ≡ o
      → Bounded c path × (verdict g c path o ≡ empty_finding) ⊎ Named c (verdict g c path o)
  verdict_cases c path none h = inr (refl, refl)
  verdict_cases c path (some n) h =
      elim (if_cases (is_loop_node n.type) (loop_verdict c n (get_max_iterations n))
        (other_verdict g c path n (find_parent_control g path))) [
          | inl (t, e) ↦ elim (loop_cases c n (get_max_iterations n)) [
            | inl (small, q) ↦ inl (
              record {
                at = c;
                node = n;
                where_at = inl refl;
                present = h;
                loops = t;
                small = small;
              },
              e ∙ q,
            )
            | inr named ↦ inr (subst (Named c) (sym e) named)
          ]
          | inr (f, e) ↦ elim (other_cases c path n (find_parent_control g path) refl) [
            | inl (b, q) ↦ inl (b, e ∙ q)
            | inr named ↦ inr (subst (Named c) (sym e) named)
          ]
        ]

  -- A verdict names the node of the cycle, or it is silent and some loop node bounds the cycle.
  pub evaluate_cycle_cases :
      (c : String) (path : List String)
      → Bounded c path × (((evaluate_cycle g c path).rule_name == "") ≡ true)
        ⊎ (((evaluate_cycle g c path).rule_name == "") ≡ false)
          × ((evaluate_cycle g c path).node_id ≡ c)
  unfolding evaluate_cycle
  evaluate_cycle_cases c path = elim (verdict_cases c path (lookup c g.nodes) refl) [
    | inl (b, e) ↦ inl (b, ap (λ (f : Finding). f.rule_name == "") e)
    | inr (named, at) ↦ inr (ap (λ r. r == "") named, at)
  ]
