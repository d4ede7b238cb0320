-- ===== src/Rules/CircularAgents/Rounds.antt =====
-- How long a round can be, and when the path of a round counts as a delegation cycle: together, that
-- the search with its depth finds a circle exactly if there is one.
use mathlib.Core.List.Memᴰ
use shingan.Prelude.{
  ℕ, suc, ◌≤◌, String, true, false, not, ◌&&◌, ◌≡◌, refl, ap, subst, ◌↔◌, inl, inr, none, some,
  List, [], ◌∷◌, Memᴰ, select, contains, contains_iff, keys, Dict, length, length-select-le, leb,
  arith, Bool-cases, Memᴰ-cons, eq_iff,
}
use shingan.Domain.Graph.{WorkflowGraph, Node}
use shingan.Rules.CircularAgents.{members_from, dfs}
use shingan.Rules.CircularAgents.Spec.{Round}
use shingan.Rules.CircularAgents.Search.{Counts, dfs-IsSearch}

-- The keys that are not visited.
abbrev unseen : List String → List String → ℕ
unseen visited ks = length (select (λ k. not (contains visited k)) ks)

unseen-le : (x : String) (visited ks : List String) → unseen (x ∷ visited) ks ≤ unseen visited ks
unfolding select contains
unseen-le x visited [] = omega arith
unseen-le x visited (k ∷ ks) = ground (arith, unseen-le x visited ks)

unseen-lt :
    (x : String) (visited ks : List String)
    → Memᴰ x ks
    → contains visited x ≡ false
    → suc (unseen (x ∷ visited) ks) ≤ unseen visited ks
unfolding select contains
unseen-lt x visited [] m new = absurd (Memᴰ.not-nil m)
unseen-lt x visited (k ∷ ks) m new =
    ground
      (arith, unseen-le x visited ks, unseen-lt x visited ks, Memᴰ-cons x k ks, eq_iff x k, new)

Round-length :
    (g : WorkflowGraph) (src u : String) (visited xs : List String)
    → Round g src u visited xs
    → length xs ≤ unseen visited (keys g.nodes)
Round-length g src u visited [] r = omega arith
Round-length g src u visited (x ∷ xs) (step, key, new, rest) =
    omega (
      arith,
      Round-length g src x (x ∷ visited) xs rest,
      unseen-lt x visited (keys g.nodes) key new,
    )

-- The nodes of a round were not visited.
Round-new :
    (g : WorkflowGraph) (src u b : String) (visited xs : List String)
    → Round g src u visited xs
    → Memᴰ b xs
    → contains visited b ≡ false
unfolding contains
Round-new g src u b visited [] r m = absurd (Memᴰ.not-nil m)
Round-new g src u b visited (x ∷ xs) (step, key, new, rest) m = elim (Memᴰ.cases_cons m) [
  | inl same ↦ rw same new
  | inr there ↦ ground (arith, Round-new g src x b (x ∷ visited) xs rest there)
]

-- Some agent of the path was not seen.
members_from_iff :
    (agents seen path : List String)
    → (leb 1 (length (members_from agents seen path)) ≡ true)
      ↔ ((b : String) × Memᴰ b path × (contains agents b ≡ true) × (contains seen b ≡ false))
unfolding members_from
members_from_iff agents seen [] = (λ h. cc h, λ h. absurd (Memᴰ.not-nil h.1))
members_from_iff agents seen (x ∷ path) =
    let again = members_from_iff agents seen path in
    elim (Bool-cases (contains agents x && not (contains seen x))) [
      | inl t ↦
          rw t (λ _. (x, Memᴰ.head refl, ground (arith, t), ground (arith, t)), λ _. ground arith)
      | inr f ↦ rw f (
        λ h. let (b, at, agent, new) = again.0 h in (b, Memᴰ.tail at, agent, new),
        λ (b, at, agent, new). elim (Memᴰ.cases_cons at) [
          | inl same ↦ absurd (
              ground (
                arith,
                f,
                subst (λ y. contains agents y ≡ true) same agent,
                subst (λ y. contains seen y ≡ false) same new,
              ))
          | inr there ↦ again.1 (b, there, agent, new)
        ],
      )
    ]

length_of_mem : (b : String) (xs : List String) → Memᴰ b xs → 1 ≤ length xs
length_of_mem b [] m = absurd (Memᴰ.not-nil m)
length_of_mem b (x ∷ xs) m = omega arith

length-keys : (nodes : Dict Node) → length (keys nodes) ≡ length nodes
length-keys [] = refl
length-keys (n ∷ nodes) = ap suc (length-keys nodes)

-- A circle from the agent with another agent on it.
abbrev pub Circle : WorkflowGraph → List String → String → List String → Type 0
Circle g agents src xs =
    Round g src src (src ∷ []) xs × ((b : String) × Memᴰ b xs × (contains agents b ≡ true))

module _ (g : WorkflowGraph) (agents : List String) (src : String)
    (is_agent : contains agents src ≡ true) where
  Counts-Circle :
      (xs : List String)
      → Round g src src (src ∷ []) xs
      → Counts agents (src ∷ xs) ↔ ((b : String) × Memᴰ b xs × (contains agents b ≡ true))
  unfolding members_from contains
  Counts-Circle xs round =
      let others = members_from_iff agents (src ∷ []) xs in
      (
        λ c. let (b, at, agent, new) = others.0 (ground (arith, c.1, is_agent)) in (b, at, agent),
        λ (b, at, agent).
            let more = others.1 (b, at, agent, Round-new g src src b (src ∷ []) xs round at) in
            (ground (arith, length_of_mem b xs at), ground (arith, more, is_agent)),
      )

  -- What the search finds is a circle.
  pub search_some :
      (p : List String)
      → dfs (suc (length g.nodes)) g agents src src (src ∷ []) (src ∷ []) ≡ some p
      → (xs : List String) × Circle g agents src xs
  search_some p found =
      let here = (contains_iff (src ∷ []) src).1 (Memᴰ.head refl) in
      let (xs, round, shape, counts) =
        (dfs-IsSearch g agents src (suc (length g.nodes))).sound src (src ∷ []) (src ∷ []) p here
          found in
      (xs, (round, (Counts-Circle xs round).0 (subst (Counts agents) shape counts)))

  -- If the search finds nothing, there is no circle.
  pub search_none :
      dfs (suc (length g.nodes)) g agents src src (src ∷ []) (src ∷ []) ≡ none
      → (xs : List String) → ¬ Circle g agents src xs
  search_none nothing xs (round, other) =
      let here = (contains_iff (src ∷ []) src).1 (Memᴰ.head refl) in
      let fits : suc (length xs) ≤ suc (length g.nodes) = omega (
        arith,
        Round-length g src src (src ∷ []) xs round,
        length-select-le (λ k. not (contains (src ∷ []) k)) (keys g.nodes),
        length-keys g.nodes,
      ) in
      (dfs-IsSearch g agents src (suc (length g.nodes))).complete src (src ∷ []) (src ∷ []) xs here
        fits nothing round ((Counts-Circle xs round).1 other)
