-- ===== src/Prelude/Sort.antt =====
-- `sort.Slice`, `sort.SliceStable` and `sort.Strings`: insertion from the right, which keeps the
-- order of elements that the test does not tell apart.
use mathlib.Core.List.Memᴰ
use mathlib.Core.List.Permᴰ
use mathlib.Core.List.{Permᴰ}
use shingan.Prelude.{
  ◌≡◌, refl, ◌∙◌, Bool, true, false, List, [], ◌∷◌, arith, if◌then◌else◌, Bool-cases, inl, inr,
  Memᴰ, ◌↔◌, ◌⊎◌, ⊎_elim, map, Memᴰ-cons, select, any, ap, sym,
}

-- A strict total order, as a test.
pub record IsOrder {ℓ} {A : Type ℓ} (less : A → A → Bool) : Type ℓ where
  pub asym : (a b : A) → less a b ≡ true → less b a ≡ false
  pub trans : (a b c : A) → less a b ≡ true → less b c ≡ true → less a c ≡ true
  pub connected : (a b : A) → less a b ≡ false → less b a ≡ false → a ≡ b

pub Memᴰ-perm {ℓ} : {A : Type ℓ} {a : A} {xs ys : List A} → Permᴰ xs ys → Memᴰ a xs → Memᴰ a ys
Memᴰ-perm Permᴰ.nil m = m
Memᴰ-perm (Permᴰ.cons e p) m = elim (Memᴰ.cases_cons m) [
  | inl h ↦ Memᴰ.head (h ∙ e)
  | inr r ↦ Memᴰ.tail (Memᴰ-perm p r)
]
Memᴰ-perm (Permᴰ.swap e f) m = elim (Memᴰ.cases_cons m) [
  | inl h ↦ Memᴰ.tail (Memᴰ.head (h ∙ e))
  | inr r ↦ elim (Memᴰ.cases_cons r) [ inl h ↦ Memᴰ.head (h ∙ f) | inr q ↦ Memᴰ.tail (Memᴰ.tail q) ]
]
Memᴰ-perm (Permᴰ.trans p q) m = Memᴰ-perm q (Memᴰ-perm p m)

pub any-perm {ℓ} : {A : Type ℓ} (p : A → Bool) {xs ys : List A} → Permᴰ xs ys → any p xs ≡ any p ys
unfolding any
any-perm p Permᴰ.nil = refl
any-perm p (Permᴰ.cons e r) = cc (ap p e, any-perm p r)
any-perm p (Permᴰ.swap {a} {b} {a'} {b'} {l} e f) = ground (arith, ap p e, ap p f)
any-perm p (Permᴰ.trans q r) = any-perm p q ∙ any-perm p r

pub select-perm {ℓ} :
    {A : Type ℓ} (p : A → Bool) {xs ys : List A} → Permᴰ xs ys → Permᴰ (select p xs) (select p ys)
unfolding select
select-perm p Permᴰ.nil = Permᴰ.nil
select-perm p (Permᴰ.cons {a} {b} e r) = elim (Bool-cases (p a)) [
  | inl t ↦ rw t (rw (sym (ap p e) ∙ t) (Permᴰ.cons e (select-perm p r)))
  | inr t ↦ rw t (rw (sym (ap p e) ∙ t) (select-perm p r))
]
select-perm p (Permᴰ.swap {a} {b} {l = l} e f) = elim (Bool-cases (p a)) [
  | inl t ↦ elim (Bool-cases (p b)) [
    | inl u ↦ rw t (rw u (rw (sym (ap p f) ∙ u) (rw (sym (ap p e) ∙ t) (Permᴰ.swap e f))))
    | inr u ↦ rw t (
        rw u
          (rw (sym (ap p f) ∙ u) (rw (sym (ap p e) ∙ t) (Permᴰ.cons e (Permᴰ.refl (select p l))))))
  ]
  | inr t ↦ elim (Bool-cases (p b)) [
    | inl u ↦ rw t (
        rw u
          (rw (sym (ap p f) ∙ u) (rw (sym (ap p e) ∙ t) (Permᴰ.cons f (Permᴰ.refl (select p l))))))
    | inr u ↦ rw t (rw u (rw (sym (ap p f) ∙ u) (rw (sym (ap p e) ∙ t) (Permᴰ.refl (select p l)))))
  ]
]
select-perm p (Permᴰ.trans q r) = Permᴰ.trans (select-perm p q) (select-perm p r)

module _ {ℓ} {A : Type ℓ} (less : A → A → Bool) where
  unfoldable pub sort_insert : A → List A → List A
  sort_insert x [] = x ∷ []
  sort_insert x (y ∷ ys) = if less y x then y ∷ sort_insert x ys else x ∷ y ∷ ys

  unfoldable pub sort : List A → List A
  unfolding sort_insert
  sort [] = []
  sort (x ∷ xs) = sort_insert x (sort xs)

  sort_insert-perm : (x : A) (ys : List A) → Permᴰ (sort_insert x ys) (x ∷ ys)
  unfolding sort_insert
  sort_insert-perm x [] = Permᴰ.refl (x ∷ [])
  sort_insert-perm x (y ∷ ys) = elim (Bool-cases (less y x)) [
    | inl t ↦ rw t (Permᴰ.trans (Permᴰ.cons refl (sort_insert-perm x ys)) (Permᴰ.swap refl refl))
    | inr f ↦ rw f (Permᴰ.refl (x ∷ y ∷ ys))
  ]

  -- The sorted list has the elements of the original, as often.
  pub sort-perm : (xs : List A) → Permᴰ (sort xs) xs
  unfolding sort
  sort-perm [] = Permᴰ.nil
  sort-perm (x ∷ xs) = Permᴰ.trans (sort_insert-perm x (sort xs)) (Permᴰ.cons refl (sort-perm xs))

  Memᴰ-sort_insert : (a x : A) (ys : List A) → Memᴰ a (sort_insert x ys) ↔ ((a ≡ x) ⊎ Memᴰ a ys)
  unfolding sort_insert
  Memᴰ-sort_insert a x [] = Memᴰ-cons a x []
  Memᴰ-sort_insert a x (y ∷ ys) = ground (
    arith,
    Memᴰ-sort_insert a x ys,
    Memᴰ-cons a y (sort_insert x ys),
    Memᴰ-cons a y ys,
    Memᴰ-cons a x (y ∷ ys),
  )

  pub Memᴰ-sort : (a : A) (xs : List A) → Memᴰ a (sort xs) ↔ Memᴰ a xs
  unfolding sort
  Memᴰ-sort a [] = (λ m. m, λ m. m)
  Memᴰ-sort a (x ∷ xs) =
      ground (arith, Memᴰ-sort_insert a x (sort xs), Memᴰ-sort a xs, Memᴰ-cons a x xs)

  module _ (o : IsOrder less) where
    sort_insert_comm :
        (x y : A) (zs : List A)
        → sort_insert x (sort_insert y zs) ≡ sort_insert y (sort_insert x zs)
    unfolding sort_insert
    sort_insert_comm x y [] = ground (arith, o.asym x y, o.asym y x, o.connected x y)
    sort_insert_comm x y (z ∷ zs) = ground (
      arith,
      sort_insert_comm x y zs,
      o.asym x y,
      o.asym y x,
      o.connected x y,
      o.trans x y z,
      o.trans y x z,
      o.trans x z y,
      o.trans y z x,
      o.trans z x y,
      o.trans z y x,
      o.connected z x,
      o.connected z y,
      o.asym z x,
      o.asym z y,
    )

    -- Over a strict total order the result does not depend on the order of the input.
    pub sort-eq_of_perm : {xs ys : List A} → Permᴰ xs ys → sort xs ≡ sort ys
    unfolding sort
    sort-eq_of_perm Permᴰ.nil = refl
    sort-eq_of_perm (Permᴰ.cons e p) = cc (e, sort-eq_of_perm p)
    sort-eq_of_perm (Permᴰ.swap {a} {b} {l = l} e f) = cc (e, f, sort_insert_comm a b (sort l))
    sort-eq_of_perm (Permᴰ.trans p q) = sort-eq_of_perm p ∙ sort-eq_of_perm q

module _ {ℓ} {A : Type ℓ} (less more : A → A → Bool) where
  sort_insert_agree :
      (x : A) (ys : List A)
      → ((y : A) → Memᴰ y ys → less y x ≡ more y x)
      → sort_insert less x ys ≡ sort_insert more x ys
  unfolding sort_insert
  sort_insert_agree x [] h = refl
  sort_insert_agree x (y ∷ ys) h =
      ground (arith, h y (Memᴰ.head refl), sort_insert_agree x ys (λ z m. h z (Memᴰ.tail m)))

  -- Tests that agree on the elements sort alike.
  pub sort_agree :
      (xs : List A)
      → ((x y : A) → Memᴰ x xs → Memᴰ y xs → less x y ≡ more x y)
      → sort less xs ≡ sort more xs
  unfolding sort
  sort_agree [] h = refl
  sort_agree (x ∷ xs) h =
      ap (sort_insert less x) (sort_agree xs (λ a b m n. h a b (Memᴰ.tail m) (Memᴰ.tail n)))
      ∙ sort_insert_agree x (sort more xs)
          (λ y m. h y x (Memᴰ.tail ((Memᴰ-sort more y xs).0 m)) (Memᴰ.head refl))

-- Every element comes before those that are less.
abbrev pub IsSorted {ℓ} : {A : Type ℓ} → (A → A → Bool) → List A → Type ℓ
IsSorted less [] = Unit
IsSorted less (x ∷ xs) = ((y : _) → Memᴰ y xs → less y x ≡ false) × IsSorted less xs

module _ {ℓ} {A : Type ℓ} (less : A → A → Bool) (o : IsOrder less) where
  not_less_trans : (x y z : A) → less z y ≡ false → less y x ≡ false → less z x ≡ false
  not_less_trans x y z p q = elim (Bool-cases (less z x)) [
    | inr f ↦ f
    | inl t ↦ elim (Bool-cases (less y z)) [
      | inl u ↦ cc (o.trans y z x u t)
      | inr v ↦ cc (o.connected y z v p)
    ]
  ]

  sort_insert-IsSorted :
      (x : A) (ys : List A) → IsSorted less ys → IsSorted less (sort_insert less x ys)
  unfolding sort_insert
  sort_insert-IsSorted x [] h = (λ y m. absurd (Memᴰ.not-nil m), h)
  sort_insert-IsSorted x (y ∷ ys) h = elim (Bool-cases (less y x)) [
    | inl t ↦ rw t (
      λ z m. ⊎_elim (λ e. rw e (o.asym y x t)) (h.0 z) ((Memᴰ-sort_insert less z x ys).0 m),
      sort_insert-IsSorted x ys h.1,
    )
    | inr f ↦
        rw f (
          λ z m. ⊎_elim (λ e. rw e f) (λ r. not_less_trans x y z (h.0 z r) f) (Memᴰ.cases_cons m),
          h,
        )
  ]

  -- Over a strict total order the result is sorted.
  pub sort-IsSorted : (xs : List A) → IsSorted less (sort less xs)
  unfolding sort
  sort-IsSorted [] = tt
  sort-IsSorted (x ∷ xs) = sort_insert-IsSorted x (sort less xs) (sort-IsSorted xs)

module _ {ℓ κ} {A : Type ℓ} {B : Type κ} (f : A → B) (less : A → A → Bool) (key_less : B → B → Bool)
    (same : (a b : A) → less a b ≡ key_less (f a) (f b)) where
  map-sort_insert :
      (x : A) (ys : List A) → map f (sort_insert less x ys) ≡ sort_insert key_less (f x) (map f ys)
  unfolding sort_insert
  map-sort_insert x [] = refl
  map-sort_insert x (y ∷ ys) = ground (arith, same y x, map-sort_insert x ys)

  -- A sort by keys sorts the keys.
  pub map-sort : (xs : List A) → map f (sort less xs) ≡ sort key_less (map f xs)
  unfolding sort
  map-sort [] = refl
  map-sort (x ∷ xs) =
      map-sort_insert x (sort less xs) ∙ ap (sort_insert key_less (f x)) (map-sort xs)

  pub IsSorted-of_keys : (xs : List A) → IsSorted key_less (map f xs) → IsSorted less xs
  IsSorted-of_keys [] h = tt
  IsSorted-of_keys (x ∷ xs) h =
      (λ y m. same y x ∙ h.0 (f y) (Memᴰ.map f m), IsSorted-of_keys xs h.1)
