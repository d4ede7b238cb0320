-- ===== src/Rules/Cycle/Marks.antt =====
-- The state map of the search: how the marks change, and how many nodes are left.
use mathlib.Core.List.Memᴰ
use shingan.Prelude.{
  ℕ, suc, ◌≤◌, ◌<◌, String, Bool, true, false, ◌==◌, eq_iff, ◌≡◌, ◌≢◌, refl, ap, sym, ◌∙◌, List, [],
  ◌∷◌, Dict, lookup-insert, keys, length, select, length-select-le, Memᴰ, arith, if◌then◌else◌, inl,
  inr,
}
use shingan.Domain.Graph.{WorkflowGraph}
use shingan.Rules.Cycle.{VisitState, unvisited, in_progress, Dfs, state_of, set_state}
use shingan.Rules.Cycle.Spec.{HasNode}

pub state_of-set_state :
    (id v : String) (x : VisitState) (s : Dfs)
    → state_of (set_state id x s) v ≡ (if id == v then x else state_of s v)
state_of-set_state id v x s = ground (arith, lookup-insert id v x s.state)

pub mark_self : (id : String) (x : VisitState) (s : Dfs) → state_of (set_state id x s) id ≡ x
mark_self id x s = ground (arith, state_of-set_state id id x s, eq_iff id id)

pub mark_other :
    (id v : String) (x : VisitState) (s : Dfs)
    → id ≢ v
    → state_of (set_state id x s) v ≡ state_of s v
mark_other id v x s n = ground (arith, state_of-set_state id v x s, eq_iff id v)

-- What a stretch of the search leaves: marks are kept, nothing new stays in progress.
pub record Later (s t : Dfs) : Type 0 where
  pub kept : (v : String) → state_of s v ≢ unvisited → state_of t v ≡ state_of s v
  pub progress : (v : String) → state_of t v ≡ in_progress → state_of s v ≡ in_progress
  pub grows : t.findings ≡ [] → s.findings ≡ []

pub Later-refl : (s : Dfs) → Later s s
Later-refl s = record { kept = λ v n. refl; progress = λ v p. p; grows = λ e. e }

pub Later-trans : {s t u : Dfs} → Later s t → Later t u → Later s u
Later-trans {s} a b = record {
  kept = λ v n. b.kept v (λ e. n (sym (a.kept v n) ∙ e)) ∙ a.kept v n;
  progress = λ v p. a.progress v (b.progress v p);
  grows = λ e. a.grows (b.grows e);
}

abbrev is_unvisited : VisitState → Bool
is_unvisited unvisited = true
is_unvisited _ = false

abbrev left : Dfs → List String → ℕ
left s ks = length (select (λ k. is_unvisited (state_of s k)) ks)

-- The nodes that are still unvisited.
abbrev pub unseen : WorkflowGraph → Dfs → ℕ
unseen g s = left s (keys g.nodes)

left-le : (s t : Dfs) (ks : List String) → Later s t → left t ks ≤ left s ks
unfolding select
left-le s t [] h = omega arith
left-le s t (k ∷ ks) h = ground (arith, left-le s t ks h, h.kept k)

pub unseen-le : (g : WorkflowGraph) (s t : Dfs) → Later s t → unseen g t ≤ unseen g s
unseen-le g s t h = left-le s t (keys g.nodes) h

left-mark_le :
    (id : String) (s : Dfs) (ks : List String) → left (set_state id in_progress s) ks ≤ left s ks
unfolding select
left-mark_le id s [] = omega arith
left-mark_le id s (k ∷ ks) =
    ground (arith, left-mark_le id s ks, state_of-set_state id k in_progress s)

left-mark :
    (id : String) (s : Dfs) (ks : List String)
    → Memᴰ id ks
    → state_of s id ≡ unvisited
    → left (set_state id in_progress s) ks < left s ks
unfolding select
left-mark id s [] m u = absurd (Memᴰ.not-nil m)
left-mark id s (k ∷ ks) m u = elim (Memᴰ.cases_cons m) [
  | inl here ↦
      ground (arith, left-mark_le id s ks, state_of-set_state id k in_progress s, eq_iff id k)
  | inr later ↦ ground (arith, left-mark id s ks later u, state_of-set_state id k in_progress s)
]

-- To begin a node leaves one fewer.
pub unseen-mark :
    (g : WorkflowGraph) (id : String) (s : Dfs)
    → HasNode g id
    → state_of s id ≡ unvisited
    → unseen g (set_state id in_progress s) < unseen g s
unseen-mark g id s m u = left-mark id s (keys g.nodes) m u

length-keys {ℓ} : {V : Type ℓ} (m : Dict V) → length (keys m) ≡ length m
length-keys [] = refl
length-keys (e ∷ m) = ap suc (length-keys m)

pub unseen-le-length : (g : WorkflowGraph) (s : Dfs) → unseen g s ≤ length g.nodes
unseen-le-length g s = omega (
  arith,
  length-select-le (λ k. is_unvisited (state_of s k)) (keys g.nodes),
  length-keys {0} g.nodes,
)
