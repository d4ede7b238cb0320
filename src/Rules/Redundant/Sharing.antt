-- ===== src/Rules/Redundant/Sharing.antt =====
-- The rule on redundant calls, on the nodes that share a model and a prompt template.
use mathlib.Core.List.Memᴰ
use shingan.Prelude.{
  ◌≤◌, String, ◌≡◌, refl, sym, ap₂, ◌∙◌, subst, ◌↔◌, inl, inr, some, List, [], ◌∷◌, Memᴰ, values,
  length, arith, Bool-cases, ◌≢◌, ◌&&◌, ◌==◌, eq_iff, false_iff, str_cases, if◌then◌else◌, Bool,
  false,
}
use shingan.Prelude.Text.{str_ltb}
use shingan.Prelude.Sort.{sort}
use shingan.Domain.NodeType.{is_llm}
use shingan.Domain.Config.{get_model_name}
use shingan.Domain.Finding.{Finding, warning, lit, quoted, plain}
use shingan.Rules.CircularAgents.{join, string_config}
use shingan.Domain.Graph.{Node, WorkflowGraph}
use shingan.Rules.Redundant.{LlmKey, key_of, same_key, redundant_finding, analyze}
use shingan.Rules.Redundant.Groups.{is_candidate, ids_with}
use shingan.Rules.Redundant.Laws.{analyze-ids_with}

-- The identifiers of the LLM nodes with a model and a prompt template, in the order of the nodes.
unfoldable pub sharing : String → String → List Node → List String
sharing model template [] = []
sharing model template (n ∷ ns) =
    let rest = sharing model template ns in
    if is_llm n.type && (get_model_name n == model && string_config n "prompt_template" == template)
    then n.id ∷ rest
    else rest

-- The finding about an identifier among those that share a model and a prompt template.
abbrev pub redundant_with : List String → String → Finding
redundant_with ids id = record {
  rule_name = "redundant_llm_call";
  severity = warning;
  node_id = id;
  message =
      lit "LLM node "
      ∷ quoted id
      ∷ lit " has the same model and prompt_template as nodes: "
      ∷ plain (join ", " (sort str_ltb ids))
      ∷ [];
  suggestion =
      lit "ノード "
      ∷ plain (join ", " (sort str_ltb ids))
      ∷ lit " は同じprompt_templateとmodelで実行されています。結果のキャッシュ or 重複排除を検討してください"
      ∷ [];
  confidence = 90;
  confidence_reason = "exact_static_match";
  message_template_id = "";
  source_file = "";
}

redundant_finding-with :
    (ids : List String) (id : String)
    → redundant_finding (sort str_ltb ids) id ≡ redundant_with ids id
unfolding redundant_finding
redundant_finding-with ids id = refl

-- With a template the two tests on a node agree.
candidate_shares :
    (model template : String) (n : Node)
    → template ≢ ""
    → (is_candidate n && same_key (key_of n) (record { model = model; prompt_template = template }))
      ≡ (is_llm n.type
          && (get_model_name n == model && string_config n "prompt_template" == template))
unfolding is_candidate key_of
candidate_shares model template n t =
    elim (Bool-cases (string_config n "prompt_template" == template)) [
      | inr f ↦ rw f (ground arith)
      | inl e ↦
          let same = (eq_iff (string_config n "prompt_template") template).0 e in
          let set : (string_config n "prompt_template" == "") ≡ false =
            (false_iff _ (eq_iff (string_config n "prompt_template") "")).1
              (λ h. t (sym same ∙ h)) in
          rw (e, set) (ground arith)
    ]

ids_with-sharing :
    (model template : String) (ns : List Node)
    → template ≢ ""
    → ids_with (record { model = model; prompt_template = template }) ns ≡ sharing model template ns
unfolding ids_with sharing
ids_with-sharing model template [] t = refl
ids_with-sharing model template (n ∷ ns) t =
    ap₂ (λ (test : Bool) (rest : List String). if test then n.id ∷ rest else rest)
      (candidate_shares model template n t) (ids_with-sharing model template ns t)

blank_is_none :
    (model : String) (n : Node)
    → (is_candidate n && same_key (key_of n) (record { model = model; prompt_template = "" }))
      ≡ false
unfolding is_candidate key_of
blank_is_none model n = elim (Bool-cases (string_config n "prompt_template" == "")) [
  | inl t ↦ rw t (ground arith)
  | inr f ↦ rw f (ground arith)
]

-- Without a template there is no candidate.
ids_with-none :
    (model : String) (ns : List Node)
    → ids_with (record { model = model; prompt_template = "" }) ns ≡ []
unfolding ids_with
ids_with-none model [] = refl
ids_with-none model (n ∷ ns) = rw (blank_is_none model n) (ids_with-none model ns)

-- Two or more LLM nodes of the graph share a model and a prompt template that is not empty, and the
-- finding is about one of them.
abbrev pub IsRedundant : WorkflowGraph → Finding → Type 0
IsRedundant g f =
    (model : String) × (template : String) × (id : String) × (template ≢ "")
    × (2 ≤ length (sharing model template (values g.nodes)))
    × Memᴰ id (sharing model template (values g.nodes))
    × (f ≡ redundant_with (sharing model template (values g.nodes)) id)

-- The rule on redundant calls reports a finding exactly if two or more LLM nodes of the graph have one
-- model and one prompt template, which is not empty, and the finding is the one about one of them, which
-- names the identifiers of all of them, sorted.
pub analyze-IsRedundant :
    (g : WorkflowGraph) (f : Finding) → Memᴰ f (analyze (some g)) ↔ IsRedundant g f
analyze-IsRedundant g f =
    let all = analyze-ids_with g f in
    (
      λ m.
          let (k, (two, (id, at, e))) = all.0 m in
          elim (str_cases k.prompt_template "") [
            | inl (none_set, _) ↦
                let none_with : ids_with k (values g.nodes) ≡ [] =
                  subst
                    (λ t.
                      ids_with (record { model = k.model; prompt_template = t }) (values g.nodes)
                      ≡ [])
                    (sym none_set) (ids_with-none k.model (values g.nodes)) in
                absurd (Memᴰ.not-nil (subst (Memᴰ id) none_with at))
            | inr (set, _) ↦
                let same = ids_with-sharing k.model k.prompt_template (values g.nodes) set in
                (
                  k.model,
                  k.prompt_template,
                  id,
                  set,
                  subst (λ ids. 2 ≤ length ids) same two,
                  subst (Memᴰ id) same at,
                  subst (λ ids. f ≡ redundant_with ids id) same
                      (e ∙ redundant_finding-with (ids_with k (values g.nodes)) id),
                )
          ],
      λ (model, template, id, set, two, at, e).
          let k : LlmKey = record { model = model; prompt_template = template } in
          let same = ids_with-sharing model template (values g.nodes) set in
          all.1 (
            k,
            (
              subst (λ ids. 2 ≤ length ids) (sym same) two,
              (
                id,
                subst (Memᴰ id) (sym same) at,
                subst (λ ids. f ≡ redundant_with ids id) (sym same) e
                    ∙ sym (redundant_finding-with (ids_with k (values g.nodes)) id),
              ),
            ),
          ),
    )
