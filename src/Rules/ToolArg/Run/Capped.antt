-- ===== src/Rules/ToolArg/Run/Capped.antt =====
-- Steps of the search append to the findings those of some fields, up to the cap.
use mathlib.Core.List.{append_assoc}
use shingan.Prelude.{
  String, true, false, ◌==◌, ◌||◌, ◌≡◌, refl, sym, ◌∙◌, ap, subst, inl, inr, ◌≤◌, Option, none,
  some, List, [], ◌∷◌, ◌++◌, collect, prepend, length, length-append, append_nil, arith, Bool-cases,
  eq_iff, if◌then◌else◌,
}
use shingan.Prelude.Take.{take, take_all, length-take-le, take-append_full, take-append_take}
use shingan.Domain.Value.{Fields}
use shingan.Domain.Finding.{Finding}
use shingan.Rules.ToolArg.{Field, field_finding, type_of, is_full, max_findings_per_node}
use shingan.Rules.ToolArg.Walk.{Flow, next, stop, classify_field, then_items, from_root}

prepend-append {ℓ} :
    {A : Type ℓ} (o : Option A) (xs ys : List A) → prepend o (xs ++ ys) ≡ prepend o xs ++ ys
unfolding prepend
prepend-append none xs ys = refl
prepend-append (some x) xs ys = refl

module _ (id : String) where
  abbrev pub findings_of : List Field → List Finding
  findings_of = collect (field_finding id)

  findings_of-append :
      (xs ys : List Field) → findings_of (xs ++ ys) ≡ findings_of xs ++ findings_of ys
  unfolding collect prepend
  findings_of-append [] ys = refl
  findings_of-append (x ∷ xs) ys =
      ap (prepend (field_finding id x)) (findings_of-append xs ys)
      ∙ prepend-append (field_finding id x) (findings_of xs) (findings_of ys)

  abbrev pub capped : List Finding → List Field → List Finding
  capped fs fields = take max_findings_per_node (fs ++ findings_of fields)

  -- The step appends the findings of the fields.
  abbrev pub Adds : (List Finding → List Finding) → List Field → Type 0
  Adds step fields =
      (fs : List Finding) → length fs ≤ max_findings_per_node → step fs ≡ capped fs fields

  -- A loop that returns has reached the cap.
  abbrev pub EndsAs : Flow → List Finding → Type 0
  EndsAs (next found) goal = found ≡ goal
  EndsAs (stop found) goal = (found ≡ goal) × (max_findings_per_node ≤ length found)

  abbrev pub AddsFlow : (List Finding → Flow) → List Field → Type 0
  AddsFlow step fields =
      (fs : List Finding) → length fs ≤ max_findings_per_node → EndsAs (step fs) (capped fs fields)

  pub length-step-le :
      (step : List Finding → List Finding) (fields : List Field)
      → Adds step fields
      → (fs : List Finding) → length fs ≤ max_findings_per_node
      → length (step fs) ≤ max_findings_per_node
  length-step-le step fields adds fs few =
      rw (adds fs few) (length-take-le max_findings_per_node (fs ++ findings_of fields))

  -- More findings, after those of some fields.
  pub capped-append :
      (fs : List Finding) (xs ys : List Field)
      → take max_findings_per_node (capped fs xs ++ findings_of ys) ≡ capped fs (xs ++ ys)
  capped-append fs xs ys =
      take-append_take max_findings_per_node (fs ++ findings_of xs) (findings_of ys)
      ∙ ap (take max_findings_per_node) (
          append_assoc fs (findings_of xs) (findings_of ys)
          ∙ ap (λ r. fs ++ r) (sym (findings_of-append xs ys)))

  -- From the cap on, nothing is added.
  pub capped_full :
      (fs : List Finding) (xs ys : List Field)
      → max_findings_per_node ≤ length (capped fs xs)
      → capped fs xs ≡ capped fs (xs ++ ys)
  capped_full fs xs ys full =
      sym (take-append_full max_findings_per_node (fs ++ findings_of xs) (findings_of ys) full)
      ∙ sym (take-append_take max_findings_per_node (fs ++ findings_of xs) (findings_of ys))
      ∙ capped-append fs xs ys

  pub nothing-Adds : Adds (λ fs. fs) []
  unfolding collect
  nothing-Adds fs few =
      sym (ap (take max_findings_per_node) (append_nil fs) ∙ take_all max_findings_per_node fs few)

  full_stays :
      (fs ys : List Finding)
      → length fs ≤ max_findings_per_node
      → is_full fs ≡ true
      → fs ≡ take max_findings_per_node (fs ++ ys)
  full_stays fs ys few full =
      let all = take_all max_findings_per_node fs few in
      sym (take-append_full max_findings_per_node fs ys (rw all (ground (arith, full))) ∙ all)

  -- What is found is appended, unless the cap is reached.
  append_found :
      (o : Option Finding) (fs : List Finding)
      → length fs ≤ max_findings_per_node
      → is_full fs ≡ false
      → elim o [ none ↦ fs | some x ↦ fs ++ x ∷ [] ]
        ≡ take max_findings_per_node (fs ++ prepend o [])
  unfolding prepend
  append_found none fs few room =
      sym (ap (take max_findings_per_node) (append_nil fs) ∙ take_all max_findings_per_node fs few)
  append_found (some x) fs few room = sym (
      take_all max_findings_per_node (fs ++ x ∷ [])
        (rw (length-append fs (x ∷ [])) (ground (arith, room))))

  pub classify_field-Adds : (f : Field) → Adds (classify_field id f) (f ∷ [])
  unfolding classify_field collect prepend
  classify_field-Adds f fs few = elim (Bool-cases (is_full fs)) [
    | inl full ↦ rw full (full_stays fs (prepend (field_finding id f) []) few full)
    | inr room ↦ rw room (append_found (field_finding id f) fs few room)
  ]

  pub after-Adds :
      (first later : List Finding → List Finding) (xs ys : List Field)
      → Adds first xs
      → Adds later ys
      → Adds (λ fs. later (first fs)) (xs ++ ys)
  after-Adds first later xs ys one two fs few =
      two (first fs) (length-step-le first xs one fs few)
      ∙ ap (λ r. take max_findings_per_node (r ++ findings_of ys)) (one fs few)
      ∙ capped-append fs xs ys

  pub then_items-Adds :
      (props : List Finding → Flow) (items : List Finding → List Finding) (xs ys : List Field)
      → AddsFlow props xs
      → Adds items ys
      → Adds (λ fs. then_items id (props fs) items) (xs ++ ys)
  then_items-Adds props items xs ys one two fs few = first_of (props fs) (one fs few)
    where
      first_of : (p : Flow) → EndsAs p (capped fs xs) → then_items id p items ≡ capped fs (xs ++ ys)
      first_of (next found) e =
          two found (rw e (length-take-le max_findings_per_node (fs ++ findings_of xs)))
          ∙ ap (λ r. take max_findings_per_node (r ++ findings_of ys)) e
          ∙ capped-append fs xs ys
      first_of (stop found) e =
          e.0 ∙ capped_full fs xs ys (subst (λ r. max_findings_per_node ≤ length r) e.0 e.1)

  -- If the finding of a field reaches the cap, those of later fields are not added.
  last_found :
      (f : Field) (fields : List Field) (fs : List Finding)
      → length fs ≤ max_findings_per_node
      → is_full (classify_field id f fs) ≡ true
      → classify_field id f fs ≡ capped fs (f ∷ fields)
  last_found f fields fs few full =
      let e = classify_field-Adds f fs few in
      let many : max_findings_per_node ≤ length (classify_field id f fs) = ground (arith, full) in
      e ∙ capped_full fs (f ∷ []) fields (subst (λ r. max_findings_per_node ≤ length r) e many)

  silent_kind :
      (path : String) (schema : Fields)
      → (type_of schema == "" || type_of schema == "object") ≡ true
      → field_finding id (path, schema) ≡ none
  unfolding field_finding
  silent_kind path schema e = elim (Bool-cases (type_of schema == "")) [
    | inl t ↦ rw ((eq_iff (type_of schema) "").0 t) refl
    | inr f ↦ rw ((eq_iff (type_of schema) "object").0 (ground (arith, e, f))) refl
  ]

  -- The body of walkSchemaRoot adds the finding of the schema before those of its search.
  pub from_root-Adds :
      (schema : Fields) (path : String) (walk : List Finding → List Finding) (ys : List Field)
      → Adds walk ys
      → Adds (from_root id schema path walk) ((path, schema) ∷ ys)
  unfolding from_root collect prepend
  from_root-Adds schema path walk ys adds fs few =
      let f : Field = (path, schema) in
      let found = classify_field id f fs in
      elim (Bool-cases (type_of schema == "" || type_of schema == "object")) [
        | inl silent ↦ rw (silent, silent_kind path schema silent) (adds fs few)
        | inr other ↦ rw other (elim (Bool-cases (is_full found)) [
          | inl full ↦ rw full (last_found f ys fs few full)
          | inr room ↦ rw room (
              after-Adds (classify_field id f) walk (f ∷ []) ys (classify_field-Adds f) adds fs few)
        ])
      ]

  -- The body of the loop over the properties.
  pub property-AddsFlow :
      (f : Field) (walk : List Finding → List Finding) (rest : List Finding → Flow)
      (ys zs : List Field)
      → Adds walk ys
      → AddsFlow rest zs
      → AddsFlow
          (λ fs.
            let found = classify_field id f fs in
            if is_full found then stop found else rest (walk found))
          (f ∷ (ys ++ zs))
  property-AddsFlow f walk rest ys zs adds later fs few =
      let found = classify_field id f fs in
      let first = after-Adds (classify_field id f) walk (f ∷ []) ys (classify_field-Adds f) adds in
      elim (Bool-cases (is_full found)) [
        | inl full ↦ rw full (last_found f (ys ++ zs) fs few full, ground (arith, full))
        | inr room ↦ rw room (
            subst (λ goal. EndsAs (rest (walk found)) goal)
              (ap (λ r. take max_findings_per_node (r ++ findings_of zs)) (first fs few)
                ∙ capped-append fs (f ∷ ys) zs)
              (later (walk found) (length-step-le _ (f ∷ ys) first fs few)))
      ]
