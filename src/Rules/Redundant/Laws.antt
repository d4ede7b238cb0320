-- ===== src/Rules/Redundant/Laws.antt =====
-- Which LLM nodes are reported.
use mathlib.Core.List.Memᴰ
use shingan.Prelude.{
  ◌≤◌, String, true, ◌≡◌, refl, sym, ap, ◌∙◌, subst, ◌↔◌, ◌⊎◌, inl, inr, some, List, [], ◌∷◌, Memᴰ,
  foldl, values, is_empty, length, ltb, arith, Bool-cases, Memᴰ-concat, Dict,
}
use shingan.Prelude.Text.{str_ltb}
use shingan.Prelude.Sort.{sort, Memᴰ-sort}
use shingan.Domain.Finding.{Finding}
use shingan.Domain.Graph.{Node, WorkflowGraph}
use shingan.Domain.Context.{RuleContext, new_rule_context, report}
use shingan.Rules.Redundant.{
  LlmKey, Groups, group_node, redundant_finding, emit_group, emit_redundant_findings, analyze,
}
use shingan.Rules.Redundant.Groups.{
  ids_with, group_of, IsGrouped, groups-ids_with, group_of-mem, mem-group_of, groups-IsGrouped,
}

module _ (f : Finding) where
  reported :
      (ids xs : List String) (c : RuleContext)
      → Memᴰ f (foldl (λ d id. report d (redundant_finding ids id)) c xs).buffer
        ↔ (Memᴰ f c.buffer ⊎ ((id : String) × Memᴰ id xs × (f ≡ redundant_finding ids id)))
  unfolding report redundant_finding
  reported ids [] c = (inl, λ h. elim h [ inl m ↦ m | inr n ↦ absurd (Memᴰ.not-nil n.1) ])
  reported ids (x ∷ xs) c =
      let later = reported ids xs (report c (redundant_finding ids x)) in
      let here = Memᴰ-concat f (redundant_finding ids x) c.buffer in
      (
        λ m. elim (later.0 m) [
          | inr (id, at, e) ↦ inr (id, Memᴰ.tail at, e)
          | inl n ↦ elim (here.0 n) [ inl old ↦ inl old | inr e ↦ inr (x, Memᴰ.head refl, e) ]
        ],
        λ h. later.1 (elim h [
          | inl old ↦ inl (here.1 (inl old))
          | inr (id, at, e) ↦ elim (Memᴰ.cases_cons at) [
            | inl is ↦ inl (here.1 (inr (e ∙ ap (redundant_finding ids) is)))
            | inr there ↦ inr (id, there, e)
          ]
        ]),
      )

  -- The finding of an identifier in a group of two or more.
  abbrev pub FromGroup : List String → Type 0
  FromGroup ids =
      (2 ≤ length ids)
      × ((id : String) × Memᴰ id ids × (f ≡ redundant_finding (sort str_ltb ids) id))

  emitted :
      (c : RuleContext) (key : LlmKey) (ids : List String)
      → Memᴰ f (emit_group c (key, ids)).buffer ↔ (Memᴰ f c.buffer ⊎ FromGroup ids)
  unfolding emit_group
  emitted c key ids =
      let sorted = sort str_ltb ids in
      let all = reported sorted sorted c in
      elim (Bool-cases (ltb (length ids) 2)) [
        | inl few ↦
            rw few
              (inl, λ h. elim h [ inl m ↦ m | inr (two, _) ↦ absurd (ground (arith, few, two)) ])
        | inr many ↦ rw many (
          λ m. elim (all.0 m) [
            | inl old ↦ inl old
            | inr (id, at, e) ↦ inr (ground (arith, many), (id, (Memᴰ-sort str_ltb id ids).0 at, e))
          ],
          λ h. all.1 (elim h [
            | inl old ↦ inl old
            | inr (_, (id, at, e)) ↦ inr (id, (Memᴰ-sort str_ltb id ids).1 at, e)
          ]),
        )
      ]

  all_emitted :
      (gs : Groups) (c : RuleContext)
      → Memᴰ f (foldl emit_group c gs).buffer ↔ (
          Memᴰ f c.buffer ⊎ ((k : LlmKey) × (ids : List String) × Memᴰ (k, ids) gs × FromGroup ids))
  all_emitted [] c = (inl, λ h. elim h [ inl m ↦ m | inr n ↦ absurd (Memᴰ.not-nil n.2) ])
  all_emitted ((k, ids) ∷ gs) c =
      let later = all_emitted gs (emit_group c (k, ids)) in
      let here = emitted c k ids in
      (
        λ m. elim (later.0 m) [
          | inr (j, xs, at, from) ↦ inr (j, xs, Memᴰ.tail at, from)
          | inl n ↦ elim (here.0 n) [
            | inl old ↦ inl old
            | inr from ↦ inr (k, ids, Memᴰ.head refl, from)
          ]
        ],
        λ h. later.1 (elim h [
          | inl old ↦ inl (here.1 (inl old))
          | inr (j, xs, at, from) ↦ elim (Memᴰ.cases_cons at) [
            | inl is ↦
                inl
                  (here.1 (inr (subst FromGroup (ap (λ (x : LlmKey × List String). x.1) is) from)))
            | inr there ↦ inr (j, xs, there, from)
          ]
        ]),
      )

  abbrev all_groups : List Node → Groups
  all_groups ns = foldl group_node [] ns

  groups_iff :
      (ns : List Node)
      → ((k : LlmKey) × (ids : List String) × Memᴰ (k, ids) (all_groups ns) × FromGroup ids)
        ↔ ((k : LlmKey) × FromGroup (ids_with k ns))
  unfolding IsGrouped group_of
  groups_iff ns =
      let grouped = groups-IsGrouped ns [] tt in
      (
        λ (k, ids, at, from).
            let same =
              sym (group_of-mem k ids (all_groups ns) grouped at) ∙ groups-ids_with k ns [] in
            (k, subst FromGroup same from),
        λ (k, from).
            let same = groups-ids_with k ns [] in
            let back = subst FromGroup (sym same) from in
            (
              k,
              group_of k (all_groups ns),
              mem-group_of k (all_groups ns) (omega (arith, back.0)),
              back,
            ),
      )

  run_iff :
      (g : WorkflowGraph)
      → Memᴰ f
          (emit_redundant_findings
            (new_rule_context g "redundant_llm_call")
            (all_groups (values g.nodes))).buffer
        ↔ ((k : LlmKey) × FromGroup (ids_with k (values g.nodes)))
  unfolding emit_redundant_findings new_rule_context
  run_iff g =
      let all =
        all_emitted (all_groups (values g.nodes)) (new_rule_context g "redundant_llm_call") in
      let each = groups_iff (values g.nodes) in
      (
        λ m. elim (all.0 m) [ inl old ↦ absurd (Memᴰ.not-nil old) | inr from ↦ each.0 from ],
        λ h. all.1 (inr (each.1 h)),
      )

values_of_empty : (nodes : Dict Node) → is_empty nodes ≡ true → values nodes ≡ []
values_of_empty [] h = refl
values_of_empty (n ∷ nodes) h = cc h

-- What the rule reports, by the groups of its keys.
pub analyze-ids_with :
    (g : WorkflowGraph) (f : Finding)
    → Memᴰ f (analyze (some g)) ↔ ((k : LlmKey) × FromGroup f (ids_with k (values g.nodes)))
unfolding analyze ids_with
analyze-ids_with g f = elim (Bool-cases (is_empty g.nodes)) [
  | inl t ↦
      rw (t, values_of_empty g.nodes t)
        (λ m. absurd (Memᴰ.not-nil m), λ (k, from). absurd (omega (arith, from.0)))
  | inr s ↦ rw s (run_iff f g)
]
