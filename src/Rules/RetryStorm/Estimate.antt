-- ===== src/Rules/RetryStorm/Estimate.antt =====
-- The estimate of the parallelism as a maximum.
use mathlib.Core.List.Memᴰ
use shingan.Prelude.{
  ℕ, ◌+◌, ◌≤◌, String, ◌==◌, ◌≡◌, refl, sym, ◌∙◌, subst, ◌↔◌, ◌⊎◌, inl, inr, Option, none, some,
  List, [], ◌∷◌, foldl, Memᴰ, select, length, lookup, ltb, arith, if◌then◌else◌, Bool-cases,
  some_inj, str_cases,
}
use shingan.Prelude.Int.{ℤ, pos, negsuc}
use shingan.Domain.NodeType.{NodeType, loop}
use shingan.Domain.Graph.{Node, Edge, WorkflowGraph, incoming_edges}
use shingan.Domain.Config.{get_max_iterations, get_max_concurrency}
use shingan.Rules.RetryStorm.{raise, raise_by, scan_edge, estimate_parallelism, is_loop}
use shingan.Rules.RetryStorm.Spec.{IsMax, PredSignal, EdgeSignal, Signal}

-- A maximum of a maximum.
IsMax-then :
    {S T : ℕ → Type 0} (start r q : ℕ)
    → IsMax start S r
    → IsMax r T q
    → IsMax start (λ v. S v ⊎ T v) q
IsMax-then {S = S} start r q a b = record {
  at_least = omega (arith, a.at_least, b.at_least);
  bounds = λ v h. elim h [ inl s ↦ omega (arith, a.bounds v s, b.at_least) | inr t ↦ b.bounds v t ];
  reached = elim b.reached [
    | inr t ↦ inr (inr t)
    | inl e ↦ elim a.reached [
      | inl d ↦ inl (omega (arith, e, d))
      | inr s ↦ inr (inl (subst S (sym e) s))
    ]
  ];
}

IsMax-as :
    {S T : ℕ → Type 0} (start r : ℕ) → ((v : ℕ) → S v ↔ T v) → IsMax start S r → IsMax start T r
IsMax-as start r same a = record {
  at_least = a.at_least;
  bounds = λ v t. a.bounds v ((same v).1 t);
  reached = elim a.reached [ inl e ↦ inl e | inr s ↦ inr ((same r).0 s) ];
}

IsMax-none : {S : ℕ → Type 0} (start : ℕ) → ((v : ℕ) → ¬ S v) → IsMax start S start
IsMax-none start never = record {
  at_least = omega arith;
  bounds = λ v s. absurd (never v s);
  reached = inl refl;
}

pos_inj : {m n : ℕ} → some (pos m) ≡ some (pos n) → m ≡ n
pos_inj e = cc

raise-IsMax : (par : ℕ) (o : Option ℤ) → IsMax par (λ v. o ≡ some (pos v)) (raise par o)
unfolding raise
raise-IsMax par none = IsMax-none par (λ v e. cc e)
raise-IsMax par (some (negsuc n)) = IsMax-none par (λ v e. cc e)
raise-IsMax par (some (pos n)) = elim (Bool-cases (ltb par n)) [
  | inl t ↦ rw t (record {
    at_least = ground (arith, t);
    bounds = λ v e. omega (arith, pos_inj e);
    reached = inr refl;
  })
  | inr f ↦ rw f (record {
    at_least = omega arith;
    bounds = λ v e. subst (λ x. x ≤ par) (pos_inj e) (ground (arith, f));
    reached = inl refl;
  })
]

iterations-IsMax :
    (par : ℕ) (t : NodeType) (o : Option ℤ)
    → IsMax par (λ v. (t ≡ loop) × (o ≡ some (pos v))) (if is_loop t then raise par o else par)
unfolding raise
iterations-IsMax par loop o =
    IsMax-as par (raise par o) (λ v. (λ e. (refl, e), λ h. h.1)) (raise-IsMax par o)
iterations-IsMax par _ o = IsMax-none par (λ v h. cc h.0)

-- The two settings that a predecessor raises the estimate by.
raise_by-IsMax : (par : ℕ) (o : Option Node) → IsMax par (PredSignal o) (raise_by par o)
unfolding raise_by
raise_by-IsMax par none = IsMax-none par (λ v h. cc h.1)
raise_by-IsMax par (some pred) =
    let looped = if is_loop pred.type then raise par (get_max_iterations pred) else par in
    let end = raise looped (get_max_concurrency pred) in
    IsMax-as par end
      (λ v. (
        λ s. (pred, refl, s),
        λ (p, same, s).
            subst
              (λ (x : Node).
                ((x.type ≡ loop) × (get_max_iterations x ≡ some (pos v)))
                ⊎ (get_max_concurrency x ≡ some (pos v)))
              (sym (some_inj same)) s,
      ))
      (IsMax-then par looped end (iterations-IsMax par pred.type (get_max_iterations pred))
        (raise-IsMax looped (get_max_concurrency pred)))

module _ (g : WorkflowGraph) (id : String) where
  -- One edge more.
  scan_edge-IsMax :
      (e : Edge) (acc : ℕ × ℕ)
      → IsMax acc.0
          (λ v. (e.to ≡ id) × PredSignal (lookup e.from g.nodes) v)
          (scan_edge g id acc e).0
  unfolding scan_edge
  scan_edge-IsMax e acc = elim (str_cases e.to id) [
    | inl (same, t) ↦ rw t (
        IsMax-as acc.0 (raise_by acc.0 (lookup e.from g.nodes)) (λ v. (λ s. (same, s), λ s. s.1))
          (raise_by-IsMax acc.0 (lookup e.from g.nodes)))
    | inr (other, f) ↦ rw f (IsMax-none acc.0 (λ v s. other s.0))
  ]

  scan-IsMax :
      (es : List Edge) (acc : ℕ × ℕ)
      → IsMax acc.0 (EdgeSignal g id es) (foldl (scan_edge g id) acc es).0
  scan-IsMax [] acc = IsMax-none acc.0 (λ v s. Memᴰ.not-nil s.1)
  scan-IsMax (e ∷ es) acc =
      let next = scan_edge g id acc e in
      let end = (foldl (scan_edge g id) next es).0 in
      IsMax-as acc.0 end
        (λ v. (
          λ h. elim h [
            | inl s ↦ (e, Memᴰ.head refl, s.0, s.1)
            | inr s ↦ (s.0, Memᴰ.tail s.1, s.2, s.3)
          ],
          λ (d, at, to, s). elim (Memᴰ.cases_cons at) [
            | inl same ↦ inl (
                subst (λ (x : Edge). (x.to ≡ id) × PredSignal (lookup x.from g.nodes) v) same
                  (to, s))
            | inr there ↦ inr (d, there, to, s)
          ],
        ))
        (IsMax-then acc.0 next.0 end (scan_edge-IsMax e acc) (scan-IsMax es next))

  scan_edge-fan_in :
      (e : Edge) (es : List Edge) (acc : ℕ × ℕ)
      → (scan_edge g id acc e).1 + length (select (λ d. d.to == id) es)
        ≡ acc.1 + length (select (λ d. d.to == id) (e ∷ es))
  unfolding select scan_edge
  scan_edge-fan_in e es acc = elim (str_cases e.to id) [
    | inl (same, t) ↦ rw t (omega arith)
    | inr (other, f) ↦ rw f refl
  ]

  scan-fan_in :
      (es : List Edge) (acc : ℕ × ℕ)
      → (foldl (scan_edge g id) acc es).1 ≡ acc.1 + length (select (λ e. e.to == id) es)
  unfolding select
  scan-fan_in [] acc = omega arith
  scan-fan_in (e ∷ es) acc = scan-fan_in es (scan_edge g id acc e) ∙ scan_edge-fan_in e es acc

  end_IsMax :
      (par fan_in : ℕ) → IsMax par (λ v. v ≡ fan_in) (if ltb par fan_in then fan_in else par)
  end_IsMax par fan_in = elim (Bool-cases (ltb par fan_in)) [
    | inl t ↦ rw t (record {
      at_least = ground (arith, t);
      bounds = λ v e. omega (arith, e);
      reached = inr refl;
    })
    | inr f ↦ rw f (record {
      at_least = omega arith;
      bounds = λ v e. ground (arith, e, f);
      reached = inl refl;
    })
  ]

-- The estimate is the greatest of 1, the tool's own concurrency, the number of its incoming edges,
-- and the iterations (of a loop) and the concurrency of the nodes that these come from.
pub estimate-IsMax :
    (g : WorkflowGraph) (src : Node) → IsMax 1 (Signal g src) (estimate_parallelism g src)
unfolding estimate_parallelism incoming_edges
estimate-IsMax g src =
    let start = raise 1 (get_max_concurrency src) in
    let end = foldl (scan_edge g src.id) (start, 0) g.edges in
    let own = raise-IsMax 1 (get_max_concurrency src) in
    let counted = scan-fan_in g src.id g.edges (start, 0) in
    let scanned = IsMax-then 1 start end.0 own (scan-IsMax g src.id g.edges (start, 0)) in
    IsMax-as 1 (estimate_parallelism g src)
      (λ v. (
        λ h. elim h [
          | inl (inl s) ↦ inl s
          | inl (inr s) ↦ inr (inr s)
          | inr s ↦ inr (inl (omega (arith, s, counted)))
        ],
        λ h. elim h [
          | inl s ↦ inl (inl s)
          | inr (inl s) ↦ inr (omega (arith, s, counted))
          | inr (inr s) ↦ inl (inr s)
        ],
      ))
      (IsMax-then 1 end.0 (estimate_parallelism g src) scanned (end_IsMax g src.id end.0 end.1))
