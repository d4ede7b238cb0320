-- ===== src/Infrastructure/N8n/Degrees.antt =====
-- Which nodes count as roots, by the edges that meet them.
use mathlib.Core.List.Memᴰ
use shingan.Prelude.{
  ℕ, ◌+◌, String, Bool, true, not, ◌&&◌, ◌==◌, eq_iff, ◌≡◌, refl, subst, ◌⊎◌, ◌↔◌, inl, inr, some,
  List, [], ◌∷◌, foldl, Memᴰ, length, lookup, lookup-insert, get_or, select, nat_eq, ltb,
  starts_with, arith, str_cases, Bool-cases, if◌then◌else◌, Dict,
}
use shingan.Domain.Config.{get_tool_category}
use shingan.Domain.Graph.{Node, Edge}
use shingan.Infrastructure.N8n.Entry.{Degrees, bump, count_edge, is_trigger, is_root}

-- The edges other than those of AI ports.
abbrev pub is_main : Edge → Bool
is_main e = not (starts_with e.condition "ai_")

get_or-bump :
    (key id : String) (m : Dict ℕ)
    → get_or id 0 (bump key m) ≡ (if key == id then get_or id 0 m + 1 else get_or id 0 m)
get_or-bump key id m = elim (str_cases key id) [
  | inl (e, s) ↦ rw (lookup-insert key id (get_or key 0 m + 1) m) (rw (s, e) refl)
  | inr (d, s) ↦ rw (lookup-insert key id (get_or key 0 m + 1) m) (rw s refl)
]

module _ (id : String) where
  abbrev comes_in : Edge → Bool
  comes_in e = is_main e && e.to == id

  abbrev goes_out : Edge → Bool
  goes_out e = is_main e && e.from == id

  in_once :
      (e : Edge) (d : Degrees)
      → get_or id 0 (count_edge d e).main_in
        ≡ (if comes_in e then get_or id 0 d.main_in + 1 else get_or id 0 d.main_in)
  unfolding count_edge
  in_once e d = ground (arith, get_or-bump e.to id d.main_in)

  out_once :
      (e : Edge) (d : Degrees)
      → get_or id 0 (count_edge d e).main_out
        ≡ (if goes_out e then get_or id 0 d.main_out + 1 else get_or id 0 d.main_out)
  unfolding count_edge
  out_once e d = ground (arith, get_or-bump e.from id d.main_out)

  main_in-count :
      (es : List Edge) (d : Degrees)
      → get_or id 0 (foldl count_edge d es).main_in
        ≡ get_or id 0 d.main_in + length (select comes_in es)
  unfolding select
  main_in-count [] d = omega arith
  main_in-count (e ∷ es) d = ground (arith, main_in-count es (count_edge d e), in_once e d)

  main_out-count :
      (es : List Edge) (d : Degrees)
      → get_or id 0 (foldl count_edge d es).main_out
        ≡ get_or id 0 d.main_out + length (select goes_out es)
  unfolding select
  main_out-count [] d = omega arith
  main_out-count (e ∷ es) d = ground (arith, main_out-count es (count_edge d e), out_once e d)

-- A node with no main edge to it and one from it.
abbrev pub IsHead : List Edge → String → Type 0
IsHead edges id =
    (¬ ((e : Edge) × Memᴰ e edges × (is_main e ≡ true) × (e.to ≡ id)))
    × ((e : Edge) × Memᴰ e edges × (is_main e ≡ true) × (e.from ≡ id))

no_select_iff :
    (p : Edge → Bool) (es : List Edge)
    → (length (select p es) ≡ 0) ↔ (¬ ((e : Edge) × Memᴰ e es × (p e ≡ true)))
unfolding select
no_select_iff p [] = (λ _ (e, m, h). Memᴰ.not-nil m, λ _. refl)
no_select_iff p (x ∷ xs) =
    let later = no_select_iff p xs in
    elim (Bool-cases (p x)) [
      | inl t ↦ rw t (λ h. absurd (omega arith), λ n. absurd (n (x, Memᴰ.head refl, t)))
      | inr f ↦ rw f (
        λ h (e, m, t). elim (Memᴰ.cases_cons m) [
          | inl same ↦ cc (subst (λ (y : Edge). p y ≡ true) same t, f)
          | inr there ↦ later.0 h (e, there, t)
        ],
        λ n. later.1 (λ (e, m, t). n (e, Memᴰ.tail m, t)),
      )
    ]

some_select_iff :
    (p : Edge → Bool) (es : List Edge)
    → (ltb 0 (length (select p es)) ≡ true) ↔ ((e : Edge) × Memᴰ e es × (p e ≡ true))
unfolding select
some_select_iff p [] = (λ h. cc h, λ (e, m, h). absurd (Memᴰ.not-nil m))
some_select_iff p (x ∷ xs) =
    let later = some_select_iff p xs in
    elim (Bool-cases (p x)) [
      | inl t ↦ rw t (λ _. (x, Memᴰ.head refl, t), λ _. ground arith)
      | inr f ↦ rw f (
        λ h. let (e, m, t) = later.0 h in (e, Memᴰ.tail m, t),
        λ (e, m, t). elim (Memᴰ.cases_cons m) [
          | inl same ↦ cc (subst (λ (y : Edge). p y ≡ true) same t, f)
          | inr there ↦ later.1 (e, there, t)
        ],
      )
    ]

module _ (edges : List Edge) (id : String) where
  abbrev pub degrees : Degrees
  degrees = foldl count_edge (record { main_in = []; main_out = [] }) edges

  comes_in_iff : (e : Edge) → (comes_in id e ≡ true) ↔ ((is_main e ≡ true) × (e.to ≡ id))
  comes_in_iff e = ground (arith, eq_iff e.to id)

  goes_out_iff : (e : Edge) → (goes_out id e ≡ true) ↔ ((is_main e ≡ true) × (e.from ≡ id))
  goes_out_iff e = ground (arith, eq_iff e.from id)

  none_in_iff :
      (nat_eq (get_or id 0 degrees.main_in) 0 ≡ true)
      ↔ (¬ ((e : Edge) × Memᴰ e edges × (is_main e ≡ true) × (e.to ≡ id)))
  unfolding lookup
  none_in_iff =
      let count = main_in-count id edges (record { main_in = []; main_out = [] }) in
      let none_iff = no_select_iff (comes_in id) edges in
      (
        λ h (e, m, k, is). none_iff.0 (ground (arith, h, count)) (e, m, (comes_in_iff e).1 (k, is)),
        λ n.
            let empty =
              none_iff.1
                (λ (e, m, t). n (e, m, ((comes_in_iff e).0 t).0, ((comes_in_iff e).0 t).1)) in
            ground (arith, count, empty),
      )

  some_out_iff :
      (ltb 0 (get_or id 0 degrees.main_out) ≡ true)
      ↔ ((e : Edge) × Memᴰ e edges × (is_main e ≡ true) × (e.from ≡ id))
  unfolding lookup
  some_out_iff =
      let count = main_out-count id edges (record { main_in = []; main_out = [] }) in
      let some_iff = some_select_iff (goes_out id) edges in
      (
        λ h.
            let (e, m, t) = some_iff.0 (ground (arith, h, count)) in
            (e, m, ((goes_out_iff e).0 t).0, ((goes_out_iff e).0 t).1),
        λ (e, m, k, is).
            let there = some_iff.1 (e, m, (goes_out_iff e).1 (k, is)) in
            ground (arith, count, there),
      )

  -- A node is a root exactly if it is a trigger or a head.
  pub is_root_iff :
      (n : Node)
      → (is_root degrees id (some n) ≡ true) ↔ ((get_tool_category n ≡ "trigger") ⊎ IsHead edges id)
  unfolding is_root is_trigger
  is_root_iff n = ground (arith, none_in_iff, some_out_iff, eq_iff (get_tool_category n) "trigger")
