-- ===== src/Cli/Filters/Laws.antt =====
-- The exit code is that of the worst finding.
use mathlib.Core.List.Memᴰ
use shingan.Prelude.{
  ℕ, ◌≤◌, ◌≡◌, refl, sym, ◌∙◌, ap, subst, ◌⊎◌, inl, inr, List, [], ◌∷◌, Memᴰ, ltb, arith,
  if◌then◌else◌,
}
use shingan.Domain.Finding.{Finding, Severity, rank, info, warning, critical}
use shingan.Cli.Filters.{exit_from, exit_code}

Severity-cases : (s : Severity) → (s ≡ info) ⊎ (s ≡ warning) ⊎ (s ≡ critical)
Severity-cases info = inl refl
Severity-cases warning = inr (inl refl)
Severity-cases critical = inr (inr refl)

-- The code is at least the rank of every finding, and is reached.
pub record IsWorst (start : ℕ) (fs : List Finding) (code : ℕ) : Type 0 where
  pub from_start : start ≤ code
  pub bound : (f : Finding) → Memᴰ f fs → rank f.severity ≤ code
  pub reached : (code ≡ start) ⊎ ((f : Finding) × Memᴰ f fs × (rank f.severity ≡ code))

module _ (f : Finding) (fs : List Finding) (start : ℕ) (low : start ≤ 1) where
  -- A finding before the others, of a rank that the start then covers.
  IsWorst-cons :
      (next code : ℕ)
      → start ≤ next
      → rank f.severity ≤ next
      → (next ≡ start) ⊎ (rank f.severity ≡ next)
      → IsWorst next fs code
      → IsWorst start (f ∷ fs) code
  IsWorst-cons next code up covers from v = record {
    from_start = omega (arith, v.from_start);
    bound = λ g m. elim (Memᴰ.cases_cons m) [
      | inl e ↦
          subst (λ (x : Finding). rank x.severity ≤ code) (sym e) (omega (arith, v.from_start))
      | inr later ↦ v.bound g later
    ];
    reached = elim v.reached [
      | inl e ↦ elim from [
        | inl same ↦ inl (e ∙ same)
        | inr here ↦ inr (f, Memᴰ.head refl, here ∙ sym e)
      ]
      | inr (g, m, e) ↦ inr (g, Memᴰ.tail m, e)
    ];
  }

rank-le : (s : Severity) → rank s ≤ 2
rank-le info = omega arith
rank-le warning = omega arith
rank-le critical = omega arith

exit_from-IsWorst :
    (start : ℕ) (fs : List Finding) → start ≤ 1 → IsWorst start fs (exit_from start fs)
unfolding exit_from
exit_from-IsWorst start [] low = record {
  from_start = omega arith;
  bound = λ f m. absurd (Memᴰ.not-nil m);
  reached = inl refl;
}
exit_from-IsWorst start (f ∷ fs) low = elim (Severity-cases f.severity) [
  | inl e ↦
      let same : exit_from start (f ∷ fs) ≡ exit_from start fs = rw (e, exit_from) refl in
      subst (IsWorst start (f ∷ fs)) (sym same) (
        IsWorst-cons f fs start low start (exit_from start fs) (omega arith)
          (omega (arith, ap rank e)) (inl refl) (exit_from-IsWorst start fs low))
  | inr (inl e) ↦
      let next = if ltb start 1 then 1 else start in
      let same : exit_from start (f ∷ fs) ≡ exit_from next fs = rw (e, exit_from) refl in
      subst (IsWorst start (f ∷ fs)) (sym same) (
        IsWorst-cons f fs start low next (exit_from next fs) (ground arith)
          (ground (arith, ap rank e)) (inr (ground (arith, ap rank e)))
          (exit_from-IsWorst next fs (ground arith)))
  | inr (inr e) ↦
      let same : exit_from start (f ∷ fs) ≡ 2 = rw (e, exit_from) refl in
      subst (IsWorst start (f ∷ fs)) (sym same) (record {
        from_start = omega arith;
        bound = λ g m. rank-le g.severity;
        reached = inr (f, Memᴰ.head refl, ap rank e);
      })
]

-- The exit code is at least the rank of every finding (0 for info, 1 for warning, 2 for critical), and
-- it is 0 or the rank of one of them.
pub exit_code-IsWorst : (fs : List Finding) → IsWorst 0 fs (exit_code fs)
unfolding exit_code
exit_code-IsWorst fs = exit_from-IsWorst 0 fs (omega arith)
