-- ===== src/Rules/ErrorHandler/Laws.antt =====
-- Which findings the rule on error handling reports.
use shingan.Prelude.{
  ◌≡◌, refl, ◌↔◌, ◌⊎◌, inl, inr, some, Memᴰ, collect, values, is_empty, Bool-cases, select_of_empty,
  Memᴰ-select, Memᴰ-collect, Memᴰ-append,
}
use shingan.Domain.NodeType.{is_tool, is_llm}
use shingan.Domain.NodeType.Laws.{is_tool_iff, is_llm_iff}
use shingan.Domain.Finding.{Finding}
use shingan.Domain.Graph.{Node, WorkflowGraph}
use shingan.Rules.ErrorHandler.{
  sources, sinks, tool_finding, llm_finding, check_tool, check_llm, run_error_handler_checks,
  analyze,
}
use shingan.Rules.ErrorHandler.Spec.{IsBareTool, IsBareLlm}
use shingan.Rules.ErrorHandler.Bodies.{check_tool_iff, check_llm_iff}

run_iff :
    (g : WorkflowGraph) (f : Finding)
    → Memᴰ f (run_error_handler_checks g (sources g) (sinks g)) ↔ (
        ((n : Node) × IsBareTool g n × (f ≡ tool_finding n))
        ⊎ ((n : Node) × IsBareLlm g n × (f ≡ llm_finding n)))
unfolding run_error_handler_checks sources sinks
run_iff g f =
    let both =
      Memᴰ-append f (collect (check_tool g) (sources g)) (collect (check_llm g) (sinks g)) in
    let from_tools = Memᴰ-collect f (check_tool g) (sources g) in
    let from_llms = Memᴰ-collect f (check_llm g) (sinks g) in
    let source = λ (n : Node). Memᴰ-select n (λ (x : Node). is_tool x.type) (values g.nodes) in
    let sink = λ (n : Node). Memᴰ-select n (λ (x : Node). is_llm x.type) (values g.nodes) in
    (
      λ m. elim (both.0 m) [
        | inl t ↦
            let (n, at, h) = from_tools.0 t in
            let (listed, kind) = (source n).0 at in
            let (u, out, bare, e) = (check_tool_iff g f n).0 h in
            inl (
              n,
              record {
                listed = listed;
                is_tool = (is_tool_iff n.type).0 kind;
                unreliable = u;
                goes_on = out;
                unhandled = bare;
              },
              e,
            )
        | inr l ↦
            let (n, at, h) = from_llms.0 l in
            let (listed, kind) = (sink n).0 at in
            let (calls, bare, e) = (check_llm_iff g f n).0 h in
            inr (
              n,
              record {
                listed = listed;
                is_llm = (is_llm_iff n.type).0 kind;
                calls = calls;
                unhandled = bare;
              },
              e,
            )
      ],
      λ h. both.1 (elim h [
        | inl (n, t, e) ↦ inl (
            from_tools.1 (
              n,
              (source n).1 (t.listed, (is_tool_iff n.type).1 t.is_tool),
              (check_tool_iff g f n).1 (t.unreliable, t.goes_on, t.unhandled, e),
            ))
        | inr (n, t, e) ↦ inr (
            from_llms.1 (
              n,
              (sink n).1 (t.listed, (is_llm_iff n.type).1 t.is_llm),
              (check_llm_iff g f n).1 (t.calls, t.unhandled, e),
            ))
      ]),
    )

-- The test for an empty graph changes nothing.
analyze_some :
    (g : WorkflowGraph) → analyze (some g) ≡ run_error_handler_checks g (sources g) (sinks g)
unfolding analyze run_error_handler_checks sources sinks collect
analyze_some g = elim (Bool-cases (is_empty g.nodes)) [
  | inl t ↦
      rw
        (
          t,
          select_of_empty (λ n. is_tool n.type) g.nodes t,
          select_of_empty (λ n. is_llm n.type) g.nodes t,
        )
        refl
  | inr f ↦ rw f refl
]

-- A finding is reported exactly if it is that of a tool of the graph that may fail, has an edge to
-- go on by, and neither branches on a condition itself nor leads to a condition node that does; or
-- that of an LLM of the graph that has an edge to a tool, does not branch on a condition itself, and
-- has an edge to no tool that does.
pub analyze_bare :
    (g : WorkflowGraph) (f : Finding)
    → Memᴰ f (analyze (some g)) ↔ (
        ((n : Node) × IsBareTool g n × (f ≡ tool_finding n))
        ⊎ ((n : Node) × IsBareLlm g n × (f ≡ llm_finding n)))
analyze_bare g f = rw (analyze_some g) (run_iff g f)
