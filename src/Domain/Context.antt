-- ===== src/Domain/Context.antt =====
-- domain/rule.go and domain/visitor.go: the contracts of the rules, and the context that a handler
-- reports to. A handler that mutates its context returns the new one.
use shingan.Prelude.{String, Bool, ◌==◌, Option, List, [], ◌∷◌, ◌++◌, Dict, if◌then◌else◌}
use shingan.Domain.NodeType.{NodeType}
use shingan.Domain.Finding.{Severity, Finding}
use shingan.Domain.Graph.{Node, Edge, WorkflowGraph}

pub record RuleMeta : Type 0 where
  pub name : String
  pub severity : Severity
  pub fixable : Bool

pub record RuleContext : Type 0 where
  pub graph : WorkflowGraph
  pub rule_name : String
  pub buffer : List Finding

unfoldable pub new_rule_context : WorkflowGraph → String → RuleContext
new_rule_context graph rule_name = record { graph = graph; rule_name = rule_name; buffer = [] }

-- Report: a finding without a rule's name gets that of the context.
unfoldable pub report : RuleContext → Finding → RuleContext
report c f = record c {
  buffer = c.buffer ++ (if f.rule_name == "" then record f { rule_name = c.rule_name } else f) ∷ [];
}

-- Findings: what was reported; the buffer is emptied.
unfoldable pub drain : RuleContext → List Finding × RuleContext
drain c = (c.buffer, record c { buffer = [] })

abbrev pub NodeHandler : Type 0
NodeHandler = RuleContext → Node → RuleContext

abbrev pub EdgeHandler : Type 0
EdgeHandler = RuleContext → Edge → RuleContext

abbrev pub GraphHandler : Type 0
GraphHandler = RuleContext → WorkflowGraph → RuleContext

-- The handlers of a rule; `on_node` is the map by node type.
pub record Listener : Type 0 where
  pub on_node : NodeType → Option NodeHandler
  pub on_any : Option NodeHandler
  pub on_edge : Option EdgeHandler
  pub on_graph : Option GraphHandler

pub record LocalRule : Type 0 where
  pub meta : RuleMeta
  pub listener : RuleContext → Listener

pub record PathContext : Type 0 where
  pub graph : WorkflowGraph
  pub rule_name : String
  pub sources : List Node
  pub sinks : List Node
  pub reverse : Dict (List Edge)

pub record PathRule : Type 0 where
  pub meta : RuleMeta
  pub sources : WorkflowGraph → List Node
  pub sinks : WorkflowGraph → List Node
  pub propagate : PathContext → List Finding

pub record GlobalRule : Type 0 where
  pub meta : RuleMeta
  pub analyze_global : Option WorkflowGraph → List Finding

-- A value of the interface AnalysisRule, with the other interfaces that its type implements;
-- `sdk_version` is what the method of VersionedRule returns.
pub record AnalysisRule : Type 0 where
  pub name : String
  pub analyze : Option WorkflowGraph → List Finding
  pub as_global : Option GlobalRule
  pub as_path : Option PathRule
  pub as_local : Option LocalRule
  pub sdk_version : Option String
  pub message_template : Option String
