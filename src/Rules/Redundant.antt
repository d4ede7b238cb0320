-- ===== src/Rules/Redundant.antt =====
-- domain/rules/redundant.go: LLM nodes with the same model and prompt template.
pub mod Groups
pub mod Laws
pub mod Sharing
mod Tests
use shingan.Prelude.{
  ℕ, String, Bool, ◌&&◌, ◌==◌, Option, none, some, List, [], ◌∷◌, ◌++◌, foldl, values, is_empty,
  length, ltb, if◌then◌else◌,
}
use shingan.Prelude.Text.{str_ltb}
use shingan.Prelude.Sort.{sort}
use shingan.Domain.NodeType.{is_llm}
use shingan.Domain.Finding.{Finding, warning, empty_finding, lit, quoted, plain, exact_static_match}
use shingan.Domain.Graph.{Node, WorkflowGraph}
use shingan.Domain.Context.{RuleContext, new_rule_context, report, drain}
use shingan.Domain.Config.{get_model_name}
use shingan.Rules.CircularAgents.{join, string_config}

pub record LlmKey : Type 0 where
  pub model : String
  pub prompt_template : String

abbrev pub same_key : LlmKey → LlmKey → Bool
same_key a b = a.model == b.model && a.prompt_template == b.prompt_template

-- The map `groups`, as the list of its entries.
abbrev pub Groups : Type 0
Groups = List (LlmKey × List String)

-- groups[key] = append(groups[key], id)
unfoldable pub append_to : LlmKey → String → Groups → Groups
append_to key id [] = (key, id ∷ []) ∷ []
append_to key id ((k, ids) ∷ rest) =
    let later = append_to key id rest in
    if same_key k key then (k, ids ++ id ∷ []) ∷ rest else (k, ids) ∷ later

unfoldable pub key_of : Node → LlmKey
unfolding get_model_name string_config
key_of n = record { model = get_model_name n; prompt_template = string_config n "prompt_template" }

-- The body of the loop over the nodes.
unfoldable pub group_node : Groups → Node → Groups
unfolding is_llm string_config append_to key_of
group_node groups n =
    let added = append_to (key_of n) n.id groups in
    if is_llm n.type
    then (if string_config n "prompt_template" == "" then groups else added)
    else groups

unfoldable pub redundant_finding : List String → String → Finding
unfolding join
redundant_finding ids id = record empty_finding {
  rule_name = "redundant_llm_call";
  severity = warning;
  node_id = id;
  message =
      lit "LLM node "
      ∷ quoted id
      ∷ lit " has the same model and prompt_template as nodes: "
      ∷ plain (join ", " ids)
      ∷ [];
  suggestion =
      lit "ノード "
      ∷ plain (join ", " ids)
      ∷ lit " は同じprompt_templateとmodelで実行されています。結果のキャッシュ or 重複排除を検討してください"
      ∷ [];
  confidence = 90;
  confidence_reason = exact_static_match;
}

-- The reports on one group.
unfoldable pub emit_group : RuleContext → LlmKey × List String → RuleContext
unfolding report redundant_finding
emit_group c (key, ids) =
    let sorted = sort str_ltb ids in
    let reported = foldl (λ d id. report d (redundant_finding sorted id)) c sorted in
    if ltb (length ids) 2 then c else reported

unfoldable pub emit_redundant_findings : RuleContext → Groups → RuleContext
unfolding emit_group
emit_redundant_findings c groups = foldl emit_group c groups

unfoldable pub analyze : Option WorkflowGraph → List Finding
unfolding emit_redundant_findings group_node new_rule_context drain
analyze none = []
analyze (some g) =
    let groups = foldl group_node [] (values g.nodes) in
    let c = new_rule_context g "redundant_llm_call" in
    if is_empty g.nodes then [] else (drain (emit_redundant_findings c groups)).0
