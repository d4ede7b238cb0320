-- ===== src/Rules/HumanGate/Laws.antt =====
-- When the rule reports, and what.
use mathlib.Core.List.Memᴰ
use shingan.Prelude.{
  String, Bool, true, ◌≡◌, refl, subst, ◌⊎◌, inl, inr, none, some, [], ◌∷◌, Memᴰ, Dict, is_empty,
  Bool-cases,
}
use shingan.Domain.NodeType.{NodeType, human}
use shingan.Domain.Graph.{Node, WorkflowGraph}
use shingan.Rules.HumanGate.{is_deployed, is_sensitive, first_key}

-- The graph has a node under this key that passes a test.
abbrev pub Has : (Node → Bool) → Dict Node → String → Type 0
Has p nodes id = (n : Node) × Memᴰ (id, n) nodes × (p n ≡ true)

abbrev pub HasHuman : Dict Node → Type 0
HasHuman nodes = (id : String) × (n : Node) × Memᴰ (id, n) nodes × (n.type ≡ human)

pub first_key-cases :
    (p : Node → Bool) (nodes : Dict Node)
    → (first_key p nodes ≡ none) × ((id : String) → ¬ Has p nodes id)
      ⊎ ((id : String) × (first_key p nodes ≡ some id) × Has p nodes id)
unfolding first_key
first_key-cases p [] = inl (refl, λ id h. Memᴰ.not-nil h.1)
first_key-cases p ((k, n) ∷ rest) = elim (Bool-cases (p n)) [
  | inl t ↦ inr (k, rw t refl, (n, Memᴰ.head refl, t))
  | inr f ↦ rw f (elim (first_key-cases p rest) [
    | inr (id, e, (m, at, passes)) ↦ inr (id, e, (m, Memᴰ.tail at, passes))
    | inl (e, nowhere) ↦ inl (
      e,
      λ id (m, at, passes). elim (Memᴰ.cases_cons at) [
        | inl same ↦ cc (subst (λ (x : String × Node). p x.1 ≡ true) same passes, f)
        | inr there ↦ nowhere id (m, there, passes)
      ],
    )
  ])
]

-- Deployed, acting on the world, and without a human.
abbrev pub IsUngated : WorkflowGraph → Type 0
IsUngated g =
    ((id : String) × Has is_deployed g.nodes id)
    × ((id : String) × Has is_sensitive g.nodes id)
    × (¬ HasHuman g.nodes)

pub empty-Has :
    (nodes : Dict Node) (id : String) → is_empty nodes ≡ true → ¬ Has is_deployed nodes id
empty-Has [] id e h = Memᴰ.not-nil h.1
empty-Has (n ∷ nodes) id e h = cc e
