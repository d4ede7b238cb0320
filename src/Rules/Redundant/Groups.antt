-- ===== src/Rules/Redundant/Groups.antt =====
-- The groups are those of equal model and template.
use mathlib.Core.List.Memᴰ
use shingan.Prelude.{
  ◌≤◌, String, Bool, true, not, ◌&&◌, ◌==◌, ◌≡◌, ◌≢◌, refl, sym, ap, ◌∙◌, subst, ◌↔◌, ◌⊎◌, inl, inr,
  List, [], ◌∷◌, ◌++◌, Memᴰ, foldl, length, arith, eq_iff, false_iff, if◌then◌else◌, Bool-cases,
  append_one, append_nil,
}
use shingan.Domain.NodeType.{is_llm}
use shingan.Domain.Graph.{Node}
use shingan.Rules.CircularAgents.{string_config}
use shingan.Rules.Redundant.{LlmKey, same_key, Groups, append_to, key_of, group_node}

-- The nodes that are grouped: LLMs with a prompt template.
unfoldable pub is_candidate : Node → Bool
is_candidate n = is_llm n.type && not (string_config n "prompt_template" == "")

-- The identifiers of the candidates with a model and a template, in the order of the nodes.
unfoldable pub ids_with : LlmKey → List Node → List String
unfolding is_candidate
ids_with k [] = []
ids_with k (n ∷ ns) =
    let rest = ids_with k ns in
    if is_candidate n && same_key (key_of n) k then n.id ∷ rest else rest

same_key_iff : (a b : LlmKey) → (same_key a b ≡ true) ↔ (a ≡ b)
same_key_iff a b = (
  λ h.
      let m = (eq_iff a.model b.model).0 (ground (arith, h)) in
      let p = (eq_iff a.prompt_template b.prompt_template).0 (ground (arith, h)) in
      λ i. record { model = m i; prompt_template = p i },
  λ e.
      subst (λ c. same_key a c ≡ true) e
        (ground (
          arith,
          (eq_iff a.model a.model).1 refl,
          (eq_iff a.prompt_template a.prompt_template).1 refl,
        )),
)

-- The first group of a key.
unfoldable pub group_of : LlmKey → Groups → List String
group_of k [] = []
group_of k ((j, ids) ∷ rest) = if same_key j k then ids else group_of k rest

group_of-append_to :
    (k key : LlmKey) (id : String) (gs : Groups)
    → group_of k (append_to key id gs)
      ≡ (if same_key key k then group_of k gs ++ id ∷ [] else group_of k gs)
unfolding group_of append_to
group_of-append_to k key id [] = refl
group_of-append_to k key id ((j, ids) ∷ rest) = ground (
  arith,
  group_of-append_to k key id rest,
  same_key_iff j key,
  same_key_iff j k,
  same_key_iff key k,
)

group_of-group_node :
    (k : LlmKey) (gs : Groups) (n : Node)
    → group_of k (group_node gs n) ≡ (
        if is_candidate n && same_key (key_of n) k
        then group_of k gs ++ n.id ∷ []
        else group_of k gs)
unfolding group_node is_candidate
group_of-group_node k gs n = ground (arith, group_of-append_to k (key_of n) n.id gs)

-- A group holds the identifiers with its key.
pub groups-ids_with :
    (k : LlmKey) (ns : List Node) (gs : Groups)
    → group_of k (foldl group_node gs ns) ≡ group_of k gs ++ ids_with k ns
unfolding ids_with
groups-ids_with k [] gs = sym (append_nil (group_of k gs))
groups-ids_with k (n ∷ ns) gs =
    let later = groups-ids_with k ns (group_node gs n) in
    elim (Bool-cases (is_candidate n && same_key (key_of n) k)) [
      | inl t ↦ rw t (
          later
          ∙ ap (λ ids. ids ++ ids_with k ns) (group_of-group_node k gs n ∙ rw t refl)
          ∙ append_one (group_of k gs) n.id (ids_with k ns))
      | inr f ↦
          rw f (later ∙ ap (λ ids. ids ++ ids_with k ns) (group_of-group_node k gs n ∙ rw f refl))
    ]

-- Each key has one group.
unfoldable pub IsGrouped : Groups → Type 0
IsGrouped [] = Unit
IsGrouped ((k, ids) ∷ rest) =
    ((j : LlmKey) (others : List String) → Memᴰ (j, others) rest → j ≢ k) × IsGrouped rest

append_to-keys :
    (key j : LlmKey) (id : String) (ids : List String) (gs : Groups)
    → Memᴰ (j, ids) (append_to key id gs)
    → (j ≡ key) ⊎ ((before : List String) × Memᴰ (j, before) gs)
unfolding append_to
append_to-keys key j id ids [] m =
    inl (ap (λ (x : LlmKey × List String). x.0) (Memᴰ.eq_of_singleton m))
append_to-keys key j id ids ((k, xs) ∷ rest) m =
    let split = λ (b : Bool).
      Memᴰ (j, ids) (if b then (k, xs ++ id ∷ []) ∷ rest else (k, xs) ∷ append_to key id rest) in
    elim (Bool-cases (same_key k key)) [
      | inl t ↦ elim (Memᴰ.cases_cons (subst split t m)) [
        | inl e ↦ inr (xs, Memᴰ.head (ap (λ (x : LlmKey × List String). (x.0, xs)) e))
        | inr there ↦ inr (ids, Memᴰ.tail there)
      ]
      | inr f ↦ elim (Memᴰ.cases_cons (subst split f m)) [
        | inl e ↦ inr (ids, Memᴰ.head e)
        | inr there ↦ elim (append_to-keys key j id ids rest there) [
          | inl is ↦ inl is
          | inr (before, at) ↦ inr (before, Memᴰ.tail at)
        ]
      ]
    ]

append_to-IsGrouped :
    (key : LlmKey) (id : String) (gs : Groups) → IsGrouped gs → IsGrouped (append_to key id gs)
unfolding append_to IsGrouped
append_to-IsGrouped key id [] g = (λ j others m. absurd (Memᴰ.not-nil m), tt)
append_to-IsGrouped key id ((k, xs) ∷ rest) (apart, g) = elim (Bool-cases (same_key k key)) [
  | inl t ↦ rw t (apart, g)
  | inr f ↦ rw f (
    λ j others m. elim (append_to-keys key j id others rest m) [
      | inl is ↦ λ e. cc ((same_key_iff k key).1 (sym e ∙ is), f)
      | inr (before, there) ↦ apart j before there
    ],
    append_to-IsGrouped key id rest g,
  )
]

pub group_of-mem :
    (k : LlmKey) (ids : List String) (gs : Groups)
    → IsGrouped gs
    → Memᴰ (k, ids) gs
    → group_of k gs ≡ ids
unfolding group_of IsGrouped
group_of-mem k ids [] g m = absurd (Memᴰ.not-nil m)
group_of-mem k ids ((j, xs) ∷ rest) (apart, g) m = elim (Memᴰ.cases_cons m) [
  | inl e ↦
      let same = (same_key_iff j k).1 (ap (λ (x : LlmKey × List String). x.0) (sym e)) in
      rw same (ap (λ (x : LlmKey × List String). x.1) (sym e))
  | inr there ↦
      let other =
        (false_iff (same_key j k) (same_key_iff j k)).1 (λ e. apart k ids there (sym e)) in
      rw other (group_of-mem k ids rest g there)
]

pub mem-group_of :
    (k : LlmKey) (gs : Groups) → 1 ≤ length (group_of k gs) → Memᴰ (k, group_of k gs) gs
unfolding group_of
mem-group_of k [] h = absurd (omega (arith, h))
mem-group_of k ((j, xs) ∷ rest) h = elim (Bool-cases (same_key j k)) [
  | inl t ↦ rw t (Memᴰ.head (ap (λ i. (i, xs)) (sym ((same_key_iff j k).0 t))))
  | inr f ↦ rw f (
      Memᴰ.tail
        (mem-group_of k rest (subst (λ b. 1 ≤ length (if b then xs else group_of k rest)) f h)))
]

group_node-IsGrouped : (gs : Groups) (n : Node) → IsGrouped gs → IsGrouped (group_node gs n)
unfolding group_node
group_node-IsGrouped gs n g = elim (Bool-cases (is_llm n.type)) [
  | inr f ↦ rw f g
  | inl t ↦ rw t (elim (Bool-cases (string_config n "prompt_template" == "")) [
    | inl u ↦ rw u g
    | inr v ↦ rw v (append_to-IsGrouped (key_of n) n.id gs g)
  ])
]

pub groups-IsGrouped :
    (ns : List Node) (gs : Groups) → IsGrouped gs → IsGrouped (foldl group_node gs ns)
groups-IsGrouped [] gs g = g
groups-IsGrouped (n ∷ ns) gs g = groups-IsGrouped ns (group_node gs n) (group_node-IsGrouped gs n g)
