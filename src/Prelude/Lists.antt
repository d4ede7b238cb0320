-- ===== src/Prelude/Lists.antt =====
-- Lists measured by native numbers, selection by a Boolean test, and membership.
use Prim.Native.Nat.{ℕ, suc, ◌+◌, ◌≤◌}
use Prim.Native.String.{String}
use mathlib.Core.Path.{◌≡◌, refl, sym, ap, subst}
use mathlib.Core.Logic.{◌⊎◌, inl, inr, ◌↔◌, ⊎_elim}
use mathlib.Core.Bool.{Bool, true, false, ◌||◌}
use mathlib.Core.Option.{Option, none, some}
use mathlib.Core.List.{List, [], ◌∷◌, ◌++◌, Memᴰ}
use mathlib.Core.List.Memᴰ
use native.Mathlib.Omega.{arith}
use text.Mathlib.Text.{◌==◌}
use text.Mathlib.TextEquality.{eq_iff}
use shingan.Prelude.Tests.{if◌then◌else◌, Bool-cases, some_inj}

module _ {ℓ} {A : Type ℓ} where
  abbrev pub length : List A → ℕ
  length [] = 0
  length (_ ∷ xs) = suc (length xs)

  pub length-append : (xs ys : List A) → length (xs ++ ys) ≡ length xs + length ys
  length-append [] ys = omega arith
  length-append (x ∷ xs) ys = omega (arith, length-append xs ys)

  pub append_one : (xs : List A) (y : A) (ys : List A) → (xs ++ y ∷ []) ++ ys ≡ xs ++ y ∷ ys
  append_one [] y ys = refl
  append_one (x ∷ xs) y ys = ap (λ zs. x ∷ zs) (append_one xs y ys)

  pub append_nil : (xs : List A) → xs ++ [] ≡ xs
  append_nil [] = refl
  append_nil (x ∷ xs) = ap (λ zs. x ∷ zs) (append_nil xs)

  pub List-cases : (xs : List A) → (xs ≡ []) ⊎ ((x : A) × (rest : List A) × (xs ≡ x ∷ rest))
  List-cases [] = inl refl
  List-cases (x ∷ xs) = inr (x, xs, refl)

  pub Memᴰ-cons : (a x : A) (xs : List A) → Memᴰ a (x ∷ xs) ↔ ((a ≡ x) ⊎ Memᴰ a xs)
  Memᴰ-cons a x xs = (Memᴰ.cases_cons, ⊎_elim Memᴰ.head Memᴰ.tail)

  pub Memᴰ-append : (a : A) (xs ys : List A) → Memᴰ a (xs ++ ys) ↔ (Memᴰ a xs ⊎ Memᴰ a ys)
  Memᴰ-append a xs ys = (Memᴰ.append_cases xs, ⊎_elim (Memᴰ.append_left ys) (Memᴰ.append_right xs))

  pub Memᴰ-concat : (a x : A) (xs : List A) → Memᴰ a (xs ++ x ∷ []) ↔ (Memᴰ a xs ⊎ (a ≡ x))
  Memᴰ-concat a x xs = (
    λ m. ⊎_elim inl (λ last. inr (Memᴰ.eq_of_singleton last)) (Memᴰ.append_cases xs m),
    ⊎_elim (Memᴰ.append_left _) (λ e. Memᴰ.append_right xs (Memᴰ.head e)),
  )

  -- The elements that pass a test, in order.
  unfoldable pub select : (A → Bool) → List A → List A
  select p [] = []
  select p (x ∷ xs) = if p x then x ∷ select p xs else select p xs

  -- Whether some element passes.
  unfoldable pub any : (A → Bool) → List A → Bool
  any p [] = false
  any p (x ∷ xs) = p x || any p xs

  pub Memᴰ-select :
      (a : A) (p : A → Bool) (xs : List A) → Memᴰ a (select p xs) ↔ (Memᴰ a xs × (p a ≡ true))
  unfolding select
  Memᴰ-select a p [] = (λ m. absurd (Memᴰ.not-nil m), λ m. m.0)
  Memᴰ-select a p (x ∷ xs) =
      ground (arith, Memᴰ-select a p xs, Memᴰ-cons a x xs, Memᴰ-cons a x (select p xs))

  -- The elements that fail or pass make up the whole.
  pub length-select-le : (p : A → Bool) (xs : List A) → length (select p xs) ≤ length xs
  unfolding select
  length-select-le p [] = omega arith
  length-select-le p (x ∷ xs) = ground (arith, length-select-le p xs)

  pub select-append :
      (p : A → Bool) (xs ys : List A) → select p (xs ++ ys) ≡ select p xs ++ select p ys
  unfolding select
  select-append p [] ys = refl
  select-append p (x ∷ xs) ys = ground (arith, select-append p xs ys)

  pub any_of_mem : (p : A → Bool) (a : A) (xs : List A) → Memᴰ a xs → p a ≡ true → any p xs ≡ true
  unfolding any
  any_of_mem p a [] m h = absurd (Memᴰ.not-nil m)
  any_of_mem p a (x ∷ xs) m h = ground (arith, any_of_mem p a xs, Memᴰ-cons a x xs)

  pub mem_of_any :
      (p : A → Bool) (xs : List A) → any p xs ≡ true → (a : A) × Memᴰ a xs × (p a ≡ true)
  unfolding any
  mem_of_any p [] h = cc
  mem_of_any p (x ∷ xs) h = elim (Bool-cases (p x)) [
    | inl t ↦ (x, Memᴰ.head refl, t)
    | inr f ↦ let (a, m, t) = mem_of_any p xs (ground arith) in (a, Memᴰ.tail m, t)
  ]

  pub any_iff :
      (p : A → Bool) (xs : List A) → (any p xs ≡ true) ↔ ((a : A) × Memᴰ a xs × (p a ≡ true))
  any_iff p xs = (mem_of_any p xs, λ (a, m, h). any_of_mem p a xs m h)

  pub not_any_iff :
      (p : A → Bool) (xs : List A) → (any p xs ≡ false) ↔ ((x : A) → Memᴰ x xs → p x ≡ false)
  unfolding any
  not_any_iff p [] = (λ h x m. absurd (Memᴰ.not-nil m), λ h. refl)
  not_any_iff p (x ∷ xs) =
      let later = not_any_iff p xs in
      (
        λ h y m. elim (Memᴰ.cases_cons m) [
          | inl same ↦ rw same (ground (arith, h))
          | inr there ↦ later.0 (ground (arith, h)) y there
        ],
        λ h. ground (arith, h x (Memᴰ.head refl), later.1 (λ y m. h y (Memᴰ.tail m))),
      )

module _ {ℓ} {B : Type ℓ} where
  unfoldable pub prepend : Option B → List B → List B
  prepend none xs = xs
  prepend (some b) xs = b ∷ xs

  pub Memᴰ-prepend :
      (b : B) (o : Option B) (xs : List B) → Memᴰ b (prepend o xs) ↔ ((o ≡ some b) ⊎ Memᴰ b xs)
  unfolding prepend
  Memᴰ-prepend b none xs = (inr, λ h. elim h [ inl e ↦ cc e | inr m ↦ m ])
  Memᴰ-prepend b (some c) xs = (
    λ m. elim (Memᴰ.cases_cons m) [ inl e ↦ inl (ap some (sym e)) | inr r ↦ inr r ],
    λ h. elim h [ inl e ↦ Memᴰ.head (sym (some_inj e)) | inr r ↦ Memᴰ.tail r ],
  )

module _ {ℓ ℓ'} {A : Type ℓ} {B : Type ℓ'} where
  -- The results of a loop whose body appends at most one value.
  unfoldable pub collect : (A → Option B) → List A → List B
  unfolding prepend
  collect f [] = []
  collect f (x ∷ xs) = prepend (f x) (collect f xs)

  pub Memᴰ-collect :
      (b : B) (f : A → Option B) (xs : List A)
      → Memᴰ b (collect f xs) ↔ ((a : A) × Memᴰ a xs × (f a ≡ some b))
  unfolding collect
  Memᴰ-collect b f [] = (λ m. absurd (Memᴰ.not-nil m), λ h. absurd (Memᴰ.not-nil h.1))
  Memᴰ-collect b f (x ∷ xs) =
      let now = Memᴰ-prepend b (f x) (collect f xs) in
      let later = Memᴰ-collect b f xs in
      (
        λ m. elim (now.0 m) [
          | inl e ↦ (x, Memᴰ.head refl, e)
          | inr there ↦ let (a, at, h) = later.0 there in (a, Memᴰ.tail at, h)
        ],
        λ (a, at, h). now.1 (elim (Memᴰ.cases_cons at) [
          | inl same ↦ inl (subst (λ c. f c ≡ some b) same h)
          | inr there ↦ inr (later.1 (a, there, h))
        ]),
      )

-- When a loop's body appends a value.
pub guard_iff {ℓ} :
    {A : Type ℓ} (skips : Bool) (x y : A)
    → ((if skips then none else some x) ≡ some y) ↔ ((skips ≡ false) × (y ≡ x))
guard_iff true x y = (λ e. cc e, λ h. cc h.0)
guard_iff false x y = (λ e. (refl, sym (some_inj e)), λ h. ap some (sym h.1))

-- Whether a text stands in a list of texts: a Go set, or map to true, as the keys put into it.
unfoldable pub contains : List String → String → Bool
contains [] a = false
contains (x ∷ xs) a = x == a || contains xs a

pub contains_iff : (xs : List String) (a : String) → (contains xs a ≡ true) ↔ Memᴰ a xs
unfolding contains
contains_iff [] a = (λ h. cc, λ m. absurd (Memᴰ.not-nil m))
contains_iff (x ∷ xs) a = ground (arith, contains_iff xs a, Memᴰ-cons a x xs, eq_iff x a)
