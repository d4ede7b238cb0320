-- ===== src/Rules/RetryStorm/Counts.antt =====
-- The tests on retries and on the blast radius, against their limits.
use shingan.Prelude.{
  ℕ, ◌≤◌, String, ◌≡◌, refl, sym, ap, ap₂, ◌↔◌, ◌⊎◌, inl, inr, Option, none, some, some_inj, arith,
  leb, Bool-cases, Option-cases,
}
use shingan.Prelude.Int.{ℤ, pos, negsuc}
use shingan.Domain.Graph.{Node}
use shingan.Rules.RetryStorm.{Grade, int_config, enough, first_count, retry_count, grade}
use shingan.Rules.RetryStorm.Spec.{Counts, IsCount, HasGrade}

enough_iff : (o : Option ℤ) (v : ℕ) → (enough o ≡ some v) ↔ ((o ≡ some (pos v)) × (3 ≤ v))
unfolding enough
enough_iff none v = (λ h. cc h, λ h. cc h.0)
enough_iff (some (negsuc k)) v = (λ h. cc h, λ h. cc h.0)
enough_iff (some (pos u)) v = elim (Bool-cases (leb 3 u)) [
  | inl t ↦ rw t (
    λ h. (let e = some_inj h in (ap (λ x. some (pos x)) e, ground (arith, e, t))),
    λ h. let e : u ≡ v = cc h.0 in ap some e,
  )
  | inr f ↦ rw f (λ h. cc h, λ h. let e : u ≡ v = cc h.0 in absurd (ground (arith, e, f, h.1)))
]

enough-none_iff : (n : Node) (key : String) → (enough (int_config n key) ≡ none) ↔ (¬ Counts n key)
enough-none_iff n key = elim (Option-cases (enough (int_config n key))) [
  | inl e ↦ (λ h (v, c). cc ((enough_iff (int_config n key) v).1 c, e), λ h. e)
  | inr (v, e) ↦
      (λ h. cc (e, h), λ absent. absurd (absent (v, (enough_iff (int_config n key) v).0 e)))
]

abbrev first_some : Option ℕ → Option ℕ → Option ℕ → Option (ℕ × String)
first_some a b c = elim a [
  | some x ↦ some (x, "retries")
  | none ↦ elim b [
    | some x ↦ some (x, "max_retries")
    | none ↦ elim c [ some x ↦ some (x, "retry_count") | none ↦ none ]
  ]
]

-- The first of three counts.
first_of_three :
    (a b c : Option ℕ) (v : ℕ) (key : String)
    → (first_some a b c ≡ some (v, key)) ↔ (
        (key ≡ "retries") × (a ≡ some v)
        ⊎ ((key ≡ "max_retries") × (b ≡ some v) × (a ≡ none)
            ⊎ (key ≡ "retry_count") × (c ≡ some v) × (a ≡ none) × (b ≡ none)))
first_of_three (some x) b c v key = (
  λ h.
      let e = some_inj h in
      inl (sym (ap (λ (p : ℕ × String). p.1) e), ap (λ (p : ℕ × String). some p.0) e),
  λ h. elim h [
    | inl (k, e) ↦ ap some (ap₂ (λ (i : ℕ) (j : String). (i, j)) (some_inj e) (sym k))
    | inr (inl (k, e, absent)) ↦ cc absent
    | inr (inr (k, e, absent, _)) ↦ cc absent
  ],
)
first_of_three none (some x) c v key = (
  λ h.
      let e = some_inj h in
      inr (inl (sym (ap (λ (p : ℕ × String). p.1) e), ap (λ (p : ℕ × String). some p.0) e, refl)),
  λ h. elim h [
    | inl (k, e) ↦ cc e
    | inr (inl (k, e, absent)) ↦ ap some (ap₂ (λ (i : ℕ) (j : String). (i, j)) (some_inj e) (sym k))
    | inr (inr (k, e, _, absent)) ↦ cc absent
  ],
)
first_of_three none none (some x) v key = (
  λ h.
      let e = some_inj h in
      inr (
        inr
          (sym (ap (λ (p : ℕ × String). p.1) e), ap (λ (p : ℕ × String). some p.0) e, refl, refl)),
  λ h. elim h [
    | inl (k, e) ↦ cc e
    | inr (inl (k, e, absent)) ↦ cc e
    | inr (inr (k, e, _, _)) ↦ ap some (ap₂ (λ (i : ℕ) (j : String). (i, j)) (some_inj e) (sym k))
  ],
)
first_of_three none none none v key = (
  λ h. cc h,
  λ h. elim h [
    | inl (k, e) ↦ cc e
    | inr (inl (k, e, absent)) ↦ cc e
    | inr (inr (k, e, _, _)) ↦ cc e
  ],
)

pub retry_count_iff :
    (n : Node) (v : ℕ) (key : String) → (retry_count n ≡ some (v, key)) ↔ IsCount n v key
unfolding retry_count first_count
retry_count_iff n v key =
    let first =
      first_of_three (enough (int_config n "retries")) (enough (int_config n "max_retries"))
        (enough (int_config n "retry_count")) v key in
    let has = λ (k : String). enough_iff (int_config n k) v in
    let lacks = enough-none_iff n in
    (
      λ h. elim (first.0 h) [
        | inl (k, e) ↦ inl (k, (has "retries").0 e)
        | inr (inl (k, e, absent)) ↦
            inr (inl (k, (has "max_retries").0 e, (lacks "retries").0 absent))
        | inr (inr (k, e, absent, none_two)) ↦ inr (
            inr (
              k,
              (has "retry_count").0 e,
              (lacks "retries").0 absent,
              (lacks "max_retries").0 none_two,
            ))
      ],
      λ h. first.1 (elim h [
        | inl (k, e) ↦ inl (k, (has "retries").1 e)
        | inr (inl (k, e, absent)) ↦
            inr (inl (k, (has "max_retries").1 e, (lacks "retries").1 absent))
        | inr (inr (k, e, absent, none_two)) ↦ inr (
            inr (
              k,
              (has "retry_count").1 e,
              (lacks "retries").1 absent,
              (lacks "max_retries").1 none_two,
            ))
      ]),
    )

pub grade_iff : (blast : ℕ) (how : Grade) → (grade (pos blast) ≡ some how) ↔ HasGrade blast how
unfolding grade
grade_iff blast how = elim (Bool-cases (leb 100 blast)) [
  | inl t ↦ rw t (
    λ h. inl (ground (arith, t), sym (some_inj h)),
    λ h. elim h [
      | inl (_, e) ↦ ap some (sym e)
      | inr (inl (_, small, e)) ↦ absurd (ground (arith, t, small))
      | inr (inr (_, small, e)) ↦ absurd (ground (arith, t, small))
    ],
  )
  | inr f ↦ rw f (elim (Bool-cases (leb 30 blast)) [
    | inl t ↦ rw t (
      λ h. inr (inl (ground (arith, t), ground (arith, f), sym (some_inj h))),
      λ h. elim h [
        | inl (big, e) ↦ absurd (ground (arith, f, big))
        | inr (inl (_, _, e)) ↦ ap some (sym e)
        | inr (inr (_, small, e)) ↦ absurd (ground (arith, t, small))
      ],
    )
    | inr g ↦ rw g (elim (Bool-cases (leb 10 blast)) [
      | inl t ↦ rw t (
        λ h. inr (inr (ground (arith, t), ground (arith, g), sym (some_inj h))),
        λ h. elim h [
          | inl (big, e) ↦ absurd (ground (arith, f, big))
          | inr (inl (big, _, e)) ↦ absurd (ground (arith, g, big))
          | inr (inr (_, _, e)) ↦ ap some (sym e)
        ],
      )
      | inr k ↦ rw k (
        λ h. cc h,
        λ h. elim h [
          | inl (big, e) ↦ absurd (ground (arith, f, big))
          | inr (inl (big, _, e)) ↦ absurd (ground (arith, g, big))
          | inr (inr (big, _, e)) ↦ absurd (ground (arith, k, big))
        ],
      )
    ])
  ])
]
