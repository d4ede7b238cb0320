-- ===== src/Infrastructure/N8n/Entry.antt =====
-- infrastructure/parser/n8n.go: the entries of a document, and the one that is picked.
use shingan.Prelude.{
  ℕ, ◌+◌, String, Bool, false, not, ◌&&◌, ◌||◌, ◌==◌, Option, none, some, List, [], ◌∷◌, foldl, map,
  Dict, insert, lookup, get_or, select, contains, starts_with, nat_eq, ltb, if◌then◌else◌,
}
use shingan.Domain.Config.{get_tool_category}
use shingan.Domain.Graph.{Node, Edge}

-- The maps mainIn and mainOut.
pub record Degrees : Type 0 where
  pub main_in : Dict ℕ
  pub main_out : Dict ℕ

-- m[id]++
abbrev pub bump : String → Dict ℕ → Dict ℕ
bump id m = insert id (get_or id 0 m + 1) m

unfoldable pub count_edge : Degrees → Edge → Degrees
unfolding insert lookup
count_edge d e =
    if starts_with e.condition "ai_"
    then d
    else record { main_in = bump e.to d.main_in; main_out = bump e.from d.main_out }

unfoldable pub is_trigger : Option Node → Bool
unfolding get_tool_category
is_trigger none = false
is_trigger (some n) = get_tool_category n == "trigger"

-- The test of the second loop of entryRootIDs, on the node under an identifier.
unfoldable pub is_root : Degrees → String → Option Node → Bool
unfolding is_trigger lookup
is_root d id none = false
is_root d id (some n) =
    is_trigger (some n) || (nat_eq (get_or id 0 d.main_in) 0 && ltb 0 (get_or id 0 d.main_out))

unfoldable pub entry_root_ids : Dict Node → List String → List Edge → List String
unfolding select is_root lookup count_edge
entry_root_ids nodes order edges =
    let d = foldl count_edge (record { main_in = []; main_out = [] }) edges in
    select (λ id. is_root d id (lookup id nodes)) order

-- The first element that passes a test.
unfoldable pub first : (String → Bool) → List String → Option String
first p [] = none
first p (x ∷ xs) = let later = first p xs in if p x then some x else later

unfoldable pub pick_entry_node : Dict Node → List String → List Edge → String
unfolding first is_trigger lookup contains
pick_entry_node nodes [] edges = ""
pick_entry_node nodes (id ∷ order) edges =
    elim (first (λ x. is_trigger (lookup x nodes)) (id ∷ order)) [
      | some x ↦ x
      | none ↦ elim (first (λ x. not (contains (map (λ e. e.to) edges) x)) (id ∷ order)) [
        | some x ↦ x
        | none ↦ id
      ]
    ]
