-- ===== src/Application/Policy/Tests.antt =====
-- A policy on two findings, and each theorem at it.
use shingan.Prelude.{
  String, Bool, false, ◌≡◌, refl, some, none, List, [], ◌∷◌, starts_with, map, lookup,
}
use shingan.Domain.Finding.{Finding, empty_finding, critical, warning, info}
use shingan.Application.Policy.{Policy, merge_rule_config, apply_policy}
use shingan.Application.Policy.Laws.{last_set, named_severity, matching, merge-last_override}

-- Files under `legacy`.
abbrev sample_glob : String → String → Bool
sample_glob pattern path = starts_with path "legacy/"

abbrev sample_policy : Policy
sample_policy = record {
  rules = ("loop_guard", record { severity = "warning"; enabled = none }) ∷ [];
  overrides =
      record {
        paths = "legacy/**" ∷ [];
        rules =
            ("loop_guard", record { severity = "info"; enabled = none })
            ∷ ("pii_leak", record { severity = ""; enabled = some false })
            ∷ [];
      }
      ∷ [];
  plugins = [];
}

abbrev sample_finding : Finding
sample_finding = record empty_finding {
  rule_name = "loop_guard";
  severity = critical;
  source_file = "legacy/a.py";
}

abbrev sample_findings : List Finding
sample_findings =
    sample_finding
    ∷ record sample_finding { rule_name = "pii_leak" }
    ∷ record sample_finding { source_file = "app.py" }
    ∷ []

apply_policy-sample :
    map (λ f. f.severity) (apply_policy sample_glob sample_findings (some sample_policy))
    ≡ info ∷ warning ∷ []
unfolding apply_policy lookup
apply_policy-sample = refl

merge-last_override_example :
    ((merge_rule_config sample_glob sample_policy sample_finding).enabled
      ≡ last_set
          (λ rc. rc.enabled)
          (matching sample_glob sample_policy.overrides sample_finding)
          none)
    × (named_severity (merge_rule_config sample_glob sample_policy sample_finding)
        ≡ last_set named_severity
            (matching sample_glob sample_policy.overrides sample_finding)
            (some "warning"))
unfolding lookup
merge-last_override_example =
    merge-last_override sample_glob sample_policy sample_finding
      (record { severity = "warning"; enabled = none }) refl
