-- ===== src/Prelude/Maps.antt =====
-- A Go map with text keys, as the list of its entries in the order in which a `range` visits them.
use Prim.Native.String.{String}
use mathlib.Core.Path.{◌≡◌, refl, sym, ap, ◌∙◌}
use mathlib.Core.Logic.{inl, inr, ⊎_elim, ◌↔◌}
use mathlib.Core.Bool.{Bool, true, false}
use mathlib.Core.Option
use mathlib.Core.Option.{Option, none, some}
use mathlib.Core.List.{List, [], ◌∷◌, map, Memᴰ}
use mathlib.Core.List.Memᴰ
use native.Mathlib.Omega.{arith}
use text.Mathlib.Text.{◌==◌}
use text.Mathlib.TextEquality.{eq_iff}
use shingan.Prelude.Lists.{select}
use shingan.Prelude.Tests.{if◌then◌else◌, str_cases, Option-cases}

abbrev pub Dict {ℓ} : Type ℓ → Type ℓ
Dict V = List (String × V)

module _ {ℓ} {V : Type ℓ} where
  -- len(m) == 0
  abbrev pub is_empty : Dict V → Bool
  is_empty [] = true
  is_empty (_ ∷ _) = false

  -- m[key] = value
  unfoldable pub insert : String → V → Dict V → Dict V
  insert key value [] = (key, value) ∷ []
  insert key value ((k, old) ∷ rest) =
      if k == key then (key, value) ∷ rest else (k, old) ∷ insert key value rest

  abbrev pub keys : Dict V → List String
  keys = map (λ entry. entry.0)

  -- The values, in the order of the keys.
  abbrev pub values : Dict V → List V
  values = map (λ entry. entry.1)

  -- value, ok := m[key]
  unfoldable pub lookup : String → Dict V → Option V
  lookup key [] = none
  lookup key ((k, value) ∷ rest) = if k == key then some value else lookup key rest

  -- m[key], the zero value if the key is missing
  abbrev pub get_or : String → V → Dict V → V
  get_or key zero_value m = Option.get_or (lookup key m) zero_value

  -- A look-up after a write.
  pub lookup-insert :
      (key other : String) (value : V) (m : Dict V)
      → lookup other (insert key value m) ≡ (if key == other then some value else lookup other m)
  unfolding lookup insert
  lookup-insert key other value [] = refl
  lookup-insert key other value ((k, old) ∷ rest) =
      let later = lookup-insert key other value rest in
      ground (arith, later, eq_iff key other, eq_iff k key, eq_iff k other)

  pub mem_of_lookup : (k : String) (v : V) (m : Dict V) → lookup k m ≡ some v → Memᴰ (k, v) m
  unfolding lookup
  mem_of_lookup k v [] h = cc
  mem_of_lookup k v ((j, w) ∷ m) h = elim (str_cases j k) [
    | inl (e, t) ↦ Memᴰ.head (ground arith)
    | inr (n, f) ↦ Memᴰ.tail (mem_of_lookup k v m (ground arith))
  ]

  pub key_of_lookup : (k : String) (v : V) (m : Dict V) → lookup k m ≡ some v → Memᴰ k (keys m)
  key_of_lookup k v m h = Memᴰ.map (λ e. e.0) (mem_of_lookup k v m h)

  pub lookup_of_key : (k : String) (m : Dict V) → Memᴰ k (keys m) → (v : V) × (lookup k m ≡ some v)
  unfolding lookup
  lookup_of_key k [] h = absurd (Memᴰ.not-nil h)
  lookup_of_key k ((j, w) ∷ m) h = elim (str_cases j k) [
    | inl (e, t) ↦ (w, rw t)
    | inr (n, f) ↦
        let (v, p) =
          lookup_of_key k m (⊎_elim (λ e. absurd (n (sym e))) (λ r. r) (Memᴰ.cases_cons h)) in
        (v, rw f p)
  ]

  pub nonempty_of_key : (k : String) (m : Dict V) → Memᴰ k (keys m) → is_empty m ≡ false
  nonempty_of_key k [] h = absurd (Memᴰ.not-nil h)
  nonempty_of_key k (e ∷ m) h = refl

  -- A Go map has each key once.
  abbrev pub IsMap : Dict V → Type 0
  IsMap [] = Unit
  IsMap ((k, v) ∷ m) = (¬ Memᴰ k (keys m)) × IsMap m

  pub lookup_of_mem :
      (k : String) (v : V) (m : Dict V) → IsMap m → Memᴰ (k, v) m → lookup k m ≡ some v
  unfolding lookup
  lookup_of_mem k v [] d h = absurd (Memᴰ.not-nil h)
  lookup_of_mem k v ((j, w) ∷ m) d h = elim (Memᴰ.cases_cons h) [
    | inl e ↦
        rw ((eq_iff j k).1 (ap (λ (x : String × V). x.0) (sym e)))
          (ap (λ (x : String × V). some x.1) (sym e))
    | inr r ↦ elim (str_cases j k) [
      | inl (e, t) ↦ absurd (d.0 (Memᴰ.cast e (Memᴰ.map (λ x. x.0) r)))
      | inr (n, f) ↦ rw f (lookup_of_mem k v m d.1 r)
    ]
  ]

  -- Two maps with the same entries read alike.
  pub lookup_same :
      (k : String) (m n : Dict V)
      → IsMap m
      → IsMap n
      → ((e : String × V) → Memᴰ e m ↔ Memᴰ e n)
      → lookup k m ≡ lookup k n
  lookup_same k m n dm dn h = elim (Option-cases (lookup k m)) [
    | inr (v, e) ↦ e ∙ sym (lookup_of_mem k v n dn ((h (k, v)).0 (mem_of_lookup k v m e)))
    | inl e ↦ elim (Option-cases (lookup k n)) [
      | inl f ↦ e ∙ sym f
      | inr (v, f) ↦ cc (lookup_of_mem k v m dm ((h (k, v)).1 (mem_of_lookup k v n f)))
    ]
  ]

  pub select_of_empty : (p : V → Bool) (m : Dict V) → is_empty m ≡ true → select p (values m) ≡ []
  unfolding select
  select_of_empty p [] h = refl
  select_of_empty p (e ∷ m) h = cc
