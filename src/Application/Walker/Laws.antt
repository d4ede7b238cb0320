-- ===== src/Application/Walker/Laws.antt =====
-- The walk with all rules at once finds what each rule finds in a walk of its own.
use mathlib.Core.List.{flat_map, append-nil}
use shingan.Prelude.{
  String, true, false, ◌≡◌, refl, ap, ap₂, sym, ◌∙◌, some, List, [], ◌∷◌, ◌++◌, map, foldl,
  is_empty, arith, Bool-cases, inl, inr,
}
use shingan.Domain.Graph.{Node, WorkflowGraph}
use shingan.Domain.Context.{LocalRule, drain}
use shingan.Application.Walker.{Active, begin, on_node, on_edge, on_graph, drain_all, passes, walk}

foldl-map-cons {ℓ κ} :
    {A : Type ℓ} {E : Type κ} (f : E → A → A) (a : A) (rest : List A) (es : List E)
    → foldl (λ xs e. map (f e) xs) (a ∷ rest) es
      ≡ foldl (λ x e. f e x) a es ∷ foldl (λ xs e. map (f e) xs) rest es
foldl-map-cons f a rest [] = refl
foldl-map-cons f a rest (e ∷ es) = foldl-map-cons f (f e a) (map (f e) rest) es

foldl-map-nil {ℓ κ} :
    {A : Type ℓ} {E : Type κ} (f : E → A → A) (es : List E)
    → foldl (λ xs e. map (f e) xs) [] es ≡ []
foldl-map-nil f [] = refl
foldl-map-nil f (e ∷ es) = foldl-map-nil f es

at_node : String × Node → Active → Active
at_node n = on_node n.1

module _ (g : WorkflowGraph) where
  -- What one rule does in the three passes.
  alone : Active → Active
  unfolding at_node
  alone a = on_graph g (foldl (λ x e. on_edge e x) (foldl (λ x n. at_node n x) a g.nodes) g.edges)

  passes-cons : (a : Active) (rest : List Active) → passes g (a ∷ rest) ≡ alone a ∷ passes g rest
  unfolding passes alone
  passes-cons a rest =
      ap (λ xs. map (on_graph g) (foldl (λ ys e. map (on_edge e) ys) xs g.edges))
        (foldl-map-cons at_node a rest g.nodes)
      ∙ ap (map (on_graph g)) (
          foldl-map-cons on_edge (foldl (λ x n. at_node n x) a g.nodes)
            (foldl (λ xs n. map (at_node n) xs) rest g.nodes) g.edges)

  passes-nil : passes g [] ≡ []
  unfolding passes at_node
  passes-nil =
      ap (λ xs. map (on_graph g) (foldl (λ ys e. map (on_edge e) ys) xs g.edges))
        (foldl-map-nil at_node g.nodes)
      ∙ ap (map (on_graph g)) (foldl-map-nil on_edge g.edges)

  drain-alone : (a : Active) → drain_all (passes g (a ∷ [])) ≡ (drain (alone a).context).0
  unfolding drain_all
  drain-alone a =
      ap drain_all (passes-cons a [] ∙ ap (λ xs. alone a ∷ xs) passes-nil)
      ∙ append-nil (drain (alone a).context).0

  drain-passes :
      (rules : List LocalRule)
      → drain_all (passes g (map (begin g) rules))
        ≡ flat_map (λ r. drain_all (passes g (begin g r ∷ []))) rules
  unfolding drain_all flat_map
  drain-passes [] = ap drain_all passes-nil
  drain-passes (r ∷ rules) =
      ap drain_all (passes-cons (begin g r) (map (begin g) rules))
      ∙ ap₂ ◌++◌ (sym (drain-alone (begin g r))) (drain-passes rules)

  walk-nonempty :
      is_empty g.nodes ≡ false
      → (r : LocalRule) (rules : List LocalRule)
      → walk (some g) (r ∷ rules) ≡ drain_all (passes g (map (begin g) (r ∷ rules)))
  unfolding walk
  walk-nonempty e r rules = rw e

  pub walk-empty : is_empty g.nodes ≡ true → (rules : List LocalRule) → walk (some g) rules ≡ []
  unfolding walk
  walk-empty e rules = ground arith

  flat_map-empty :
      is_empty g.nodes ≡ true
      → (rules : List LocalRule) → flat_map (λ r. walk (some g) (r ∷ [])) rules ≡ []
  unfolding flat_map
  flat_map-empty e [] = refl
  flat_map-empty e (r ∷ rules) = ap₂ ◌++◌ (walk-empty e (r ∷ [])) (flat_map-empty e rules)

  flat_map-each :
      is_empty g.nodes ≡ false
      → (rules : List LocalRule)
      → flat_map (λ r. drain_all (passes g (begin g r ∷ []))) rules
        ≡ flat_map (λ r. walk (some g) (r ∷ [])) rules
  unfolding flat_map
  flat_map-each e [] = refl
  flat_map-each e (r ∷ rules) = ap₂ ◌++◌ (sym (walk-nonempty e r [])) (flat_map-each e rules)

-- One walk that dispatches to all rules returns, in the order of the rules, what a walk for each
-- rule alone returns: no rule sees or disturbs the context of another.
pub walk_each :
    (g : WorkflowGraph) (rules : List LocalRule)
    → walk (some g) rules ≡ flat_map (λ r. walk (some g) (r ∷ [])) rules
unfolding flat_map walk
walk_each g [] = refl
walk_each g (r ∷ rules) = elim (Bool-cases (is_empty g.nodes)) [
  | inl t ↦ walk-empty g t (r ∷ rules) ∙ sym (flat_map-empty g t (r ∷ rules))
  | inr f ↦ walk-nonempty g f r rules ∙ drain-passes g (r ∷ rules) ∙ flat_map-each g f (r ∷ rules)
]

-- The three passes of a walk with one rule, over its context.
pub walk_alone :
    (g : WorkflowGraph) (r : LocalRule)
    → is_empty g.nodes ≡ false
    → walk (some g) (r ∷ [])
      ≡ (drain
          (on_graph g (
            foldl
              (λ x e. on_edge e x)
              (foldl (λ x (n : String × Node). on_node n.1 x) (begin g r) g.nodes)
              g.edges)).context).0
unfolding alone at_node
walk_alone g r f = walk-nonempty g f r [] ∙ drain-alone g (begin g r)
