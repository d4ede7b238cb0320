-- ===== src/Rules/ToolDescription/Laws.antt =====
-- Which tools are reported.
use shingan.Prelude.{
  String, Bool, true, false, not, ◌==◌, ◌||◌, ◌≡◌, ◌≢◌, refl, ◌↔◌, none, some, List, [], ◌∷◌, Memᴰ,
  collect, lookup, values, is_empty, arith, eq_iff, any_iff, false_iff, guard_iff, Memᴰ-collect,
  if◌then◌else◌,
}
use shingan.Domain.NodeType.{tool, is_tool}
use shingan.Domain.NodeType.Laws.{is_tool_iff}
use shingan.Domain.Config.{get_tool_category}
use shingan.Domain.Finding.{Finding}
use shingan.Domain.Graph.{Node, WorkflowGraph}
use shingan.Rules.ToolDescription.{
  description_keys, is_described, is_dispatcher, is_ignored, is_sufficient,
  is_natural_language_name, description_finding, evaluate_tool_description, analyze,
}

-- Some key of the node holds a text that is long enough.
abbrev IsDescribed : Node → Type 0
IsDescribed n =
    (key : String) × Memᴰ key description_keys × (is_sufficient (lookup key n.config) ≡ true)

-- A tool that a model may choose, whose settings and name do not describe it.
abbrev IsObscure : Node → Type 0
IsObscure n =
    (n.type ≡ tool)
    × (get_tool_category n ≢ "trigger")
    × (is_dispatcher (lookup "tool_dispatcher" n.config) ≡ false)
    × (is_ignored (lookup "_shingan_ignore" n.config) ≡ false)
    × (¬ IsDescribed n)
    × (is_natural_language_name n.name ≡ false)

is_described_iff : (n : Node) → (is_described n ≡ true) ↔ IsDescribed n
unfolding is_described
is_described_iff n = any_iff (λ key. is_sufficient (lookup key n.config)) description_keys

-- The tests that come before the finding, as one.
abbrev spared : Node → Bool
spared n =
    not (is_tool n.type)
    || (get_tool_category n == "trigger"
        || (is_dispatcher (lookup "tool_dispatcher" n.config)
            || (is_ignored (lookup "_shingan_ignore" n.config)
                || (is_described n || is_natural_language_name n.name))))

-- Six tests, one after the other, are one test.
six_guards :
    (a b c d e f : Bool) (x : Finding)
    → (if a
        then none
        else if b
        then none
        else if c
        then none
        else if d
        then none
        else if e
        then none
        else if f
        then none
        else some x)
      ≡ (if a || (b || (c || (d || (e || f)))) then none else some x)
six_guards true b c d e f x = refl
six_guards false true c d e f x = refl
six_guards false false true d e f x = refl
six_guards false false false true e f x = refl
six_guards false false false false true f x = refl
six_guards false false false false false f x = refl

evaluate-if :
    (n : Node)
    → evaluate_tool_description n ≡ (if spared n then none else some (description_finding n.id))
unfolding evaluate_tool_description
evaluate-if n =
    six_guards (not (is_tool n.type)) (get_tool_category n == "trigger")
      (is_dispatcher (lookup "tool_dispatcher" n.config))
      (is_ignored (lookup "_shingan_ignore" n.config)) (is_described n)
      (is_natural_language_name n.name) (description_finding n.id)

spared_iff : (n : Node) → (spared n ≡ false) ↔ IsObscure n
spared_iff n = ground (
  arith,
  is_tool_iff n.type,
  eq_iff (get_tool_category n) "trigger",
  false_iff (is_described n) (is_described_iff n),
)

evaluate_iff :
    (f : Finding) (n : Node)
    → (evaluate_tool_description n ≡ some f) ↔ (IsObscure n × (f ≡ description_finding n.id))
evaluate_iff f n =
    let guard = guard_iff (spared n) (description_finding n.id) f in
    let test = spared_iff n in
    rw (evaluate-if n)
      ((λ h. (test.0 (guard.0 h).0, (guard.0 h).1), λ h. guard.1 (test.1 h.0, h.1)))

analyze_some :
    (ns : List (String × Node))
    → (if is_empty ns then [] else collect evaluate_tool_description (values ns))
      ≡ collect evaluate_tool_description (values ns)
unfolding collect
analyze_some [] = refl
analyze_some (n ∷ ns) = refl

-- A finding of the rule is reported exactly if it is the one of an obscure tool of the graph.
analyze-IsObscure :
    (g : WorkflowGraph) (f : Finding)
    → Memᴰ f (analyze (some g))
      ↔ ((n : Node) × Memᴰ n (values g.nodes) × IsObscure n × (f ≡ description_finding n.id))
unfolding analyze
analyze-IsObscure g f =
    let found = Memᴰ-collect f evaluate_tool_description (values g.nodes) in
    rw (analyze_some g.nodes) (
      (
        λ m.
            let (n, at, h) = found.0 m in
            let (obscure, e) = (evaluate_iff f n).0 h in (n, at, obscure, e),
        λ (n, at, obscure, e). found.1 (n, at, (evaluate_iff f n).1 (obscure, e)),
      ))
