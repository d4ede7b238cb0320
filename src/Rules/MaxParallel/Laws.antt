-- ===== src/Rules/MaxParallel/Laws.antt =====
-- Which fan-outs are reported.
use mathlib.Core.List.Memᴰ
use shingan.Prelude.{
  ◌≤◌, String, false, ◌≡◌, refl, subst, ◌↔◌, ◌⊎◌, inl, inr, some, [], ◌∷◌, Dict, Memᴰ, is_empty,
  length, leb, arith, if◌then◌else◌, Bool-cases,
}
use shingan.Domain.Finding.{Finding}
use shingan.Domain.Graph.{Node, WorkflowGraph, outgoing_edges}
use shingan.Rules.MaxParallel.{opts_out, fanout_finding, check_fanouts, analyze}

-- A node with a fan-out of 10 or more that does not opt out.
pub record IsWide (g : WorkflowGraph) (id : String) (n : Node) : Type 0 where
  pub unlimited : opts_out n ≡ false
  pub wide : 10 ≤ length (outgoing_edges g id)

abbrev pub reported_as : WorkflowGraph → String → Finding
reported_as g id = fanout_finding id (length (outgoing_edges g id))

module _ (g : WorkflowGraph) (f : Finding) where
  abbrev Source : Dict Node → Type 0
  Source nodes =
      (id : String) × (n : Node) × Memᴰ (id, n) nodes × IsWide g id n × (f ≡ reported_as g id)

  one_more :
      (id : String) (n : Node) (rest : Dict Node)
      → Memᴰ f (check_fanouts g ((id, n) ∷ rest))
        ↔ ((IsWide g id n × (f ≡ reported_as g id)) ⊎ Memᴰ f (check_fanouts g rest))
  unfolding check_fanouts
  one_more id n rest = elim (Bool-cases (opts_out n)) [
    | inl t ↦ rw t (inr, λ o. elim o [ inl (w, e) ↦ cc (w.unlimited, t) | inr m ↦ m ])
    | inr u ↦ rw u (elim (Bool-cases (leb 10 (length (outgoing_edges g id)))) [
      | inl b ↦ rw b (
        λ m. elim (Memᴰ.cases_cons m) [
          | inl e ↦ inl (record { unlimited = u; wide = ground (arith, b) }, e)
          | inr r ↦ inr r
        ],
        λ o. elim o [ inl (w, e) ↦ Memᴰ.head e | inr r ↦ Memᴰ.tail r ],
      )
      | inr s ↦
          rw s (inr, λ o. elim o [ inl (w, e) ↦ absurd (ground (arith, w.wide, s)) | inr m ↦ m ])
    ])
  ]

  check_fanouts-Source : (nodes : Dict Node) → Memᴰ f (check_fanouts g nodes) ↔ Source nodes
  unfolding check_fanouts
  check_fanouts-Source [] =
      (λ m. absurd (Memᴰ.not-nil m), λ (id, n, m, w, e). absurd (Memᴰ.not-nil m))
  check_fanouts-Source ((id, n) ∷ rest) =
      let step = one_more id n rest in
      let later = check_fanouts-Source rest in
      (
        λ m. elim (step.0 m) [
          | inl (w, e) ↦ (id, n, Memᴰ.head refl, w, e)
          | inr r ↦ let (i, x, at, w, e) = later.0 r in (i, x, Memᴰ.tail at, w, e)
        ],
        λ (i, x, at, w, e). elim (Memᴰ.cases_cons at) [
          | inl same ↦ step.1 (
              inl (
                subst (λ (p : String × Node). IsWide g p.0 p.1 × (f ≡ reported_as g p.0)) same
                  (w, e)))
          | inr there ↦ step.1 (inr (later.1 (i, x, there, w, e)))
        ],
      )

analyze_some :
    (g : WorkflowGraph) (nodes : Dict Node)
    → (if is_empty nodes then [] else check_fanouts g nodes) ≡ check_fanouts g nodes
unfolding check_fanouts
analyze_some g [] = refl
analyze_some g (n ∷ nodes) = refl

-- A finding is reported exactly if it is the one of a node of the graph that has 10 or more outgoing
-- edges and does not set max_concurrency.
pub analyze-IsWide :
    (g : WorkflowGraph) (f : Finding)
    → Memᴰ f (analyze (some g))
      ↔ ((id : String) × (n : Node) × Memᴰ (id, n) g.nodes × IsWide g id n × (f ≡ reported_as g id))
unfolding analyze
analyze-IsWide g f = rw (analyze_some g g.nodes) (check_fanouts-Source g f g.nodes)
