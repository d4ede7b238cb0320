-- ===== src/Domain/Finding.antt =====
-- domain/finding.go: severities, and the findings that the rules report.
use shingan.Prelude.{ℕ, String, List, []}
use shingan.Prelude.Int.{ℤ}
use shingan.Domain.NodeType.{Label}
use shingan.Domain.Value.{Value}

pub data Severity : Type 0 where
  info warning critical : Severity

-- The number behind a severity.
abbrev pub rank : Severity → ℕ
rank info = 0
rank warning = 1
rank critical = 2

unfoldable pub severity_string : Severity → String
severity_string critical = "critical"
severity_string warning = "warning"
severity_string info = "info"

-- A message before `fmt.Sprintf` renders it: its literal parts, and the values with their verbs.
pub data Piece : Type 0 where
  lit : String → Piece
  quoted : String → Piece
  plain : String → Piece
  number : ℤ → Piece
  label : Label → Piece
  value : Value → Piece

abbrev pub Message : Type 0
Message = List Piece

-- Confidence is a float64 in Go; every rule sets a multiple of 0.01, which this counts.
pub record Finding : Type 0 where
  pub rule_name : String
  pub severity : Severity
  pub node_id : String
  pub message : Message
  pub suggestion : Message
  pub confidence : ℕ
  pub confidence_reason : String
  pub message_template_id : String
  pub source_file : String

abbrev pub exact_static_match : String
exact_static_match = "exact_static_match"

abbrev pub over_approximated_dynamic : String
over_approximated_dynamic = "over_approximated_dynamic"

abbrev pub parser_fallback : String
parser_fallback = "parser_fallback"

abbrev pub experimental_rule : String
experimental_rule = "experimental_rule"

abbrev pub heuristic_pattern : String
heuristic_pattern = "heuristic_pattern"

-- Finding{}
abbrev pub empty_finding : Finding
empty_finding = record {
  rule_name = "";
  severity = info;
  node_id = "";
  message = [];
  suggestion = [];
  confidence = 0;
  confidence_reason = "";
  message_template_id = "";
  source_file = "";
}
