-- ===== src/Application/Policy.antt =====
-- application/policy.go: severities and switches for rules, by rule and by path. The glob matcher
-- (`doublestar.Match`, without an error) is a parameter.
pub mod Laws
pub mod Plugins
mod Tests
use Prim.Native.Char.{code}
use Prim.Native.String.{◌++◌}
use shingan.Prelude.{
  ℕ, String, Bool, true, false, not, ◌&&◌, ◌||◌, ◌==◌, Option, none, some, List, [], ◌∷◌, any, Dict,
  is_empty, lookup, nat_eq, if◌then◌else◌,
}
use shingan.Domain.Finding.{Severity, critical, warning, info, Finding}

pub record RuleConfig : Type 0 where
  pub severity : String
  pub enabled : Option Bool

pub record OverridePolicy : Type 0 where
  pub paths : List String
  pub rules : Dict RuleConfig

pub record Policy : Type 0 where
  pub rules : Dict RuleConfig
  pub overrides : List OverridePolicy
  pub plugins : List String

unfoldable pub parse_severity : String → Option Severity
parse_severity s =
    if s == "critical"
    then some critical
    else if s == "warning"
    then some warning
    else if s == "info"
    then some info
    else none

-- A backslash becomes a slash.
unfoldable pub normalize_slashes : String → String
normalize_slashes String.[] = String.[]
normalize_slashes (String.◌∷◌ c s) =
    let rest = normalize_slashes s in
    if nat_eq (code c) b'\\' then String.◌∷◌ "/" rest else String.◌∷◌ c rest

-- strings.CutSuffix
unfoldable pub cut_suffix : String → String → Option String
cut_suffix suffix String.[] = if suffix == "" then some "" else none
cut_suffix suffix (String.◌∷◌ c s) =
    let rest = cut_suffix suffix s in
    if String.◌∷◌ c s == suffix
    then some ""
    else elim rest [ some prefix ↦ some (String.◌∷◌ c prefix) | none ↦ none ]

-- `dir/**` against the directory itself.
unfoldable pub is_own_path : String → String → Bool
unfolding cut_suffix
is_own_path pattern path = elim (cut_suffix "/**" pattern) [
  | some prefix ↦ path == prefix || path == prefix ++ "/"
  | none ↦ false
]

abbrev pub no_overrides : List OverridePolicy → Bool
no_overrides [] = true
no_overrides (_ ∷ _) = false

-- What an override sets, on top of what is set so far.
abbrev pub override_with : Option RuleConfig → RuleConfig → RuleConfig
override_with none merged = merged
override_with (some rc) merged = record {
  severity = if rc.severity == "" then merged.severity else rc.severity;
  enabled = elim rc.enabled [ some b ↦ some b | none ↦ merged.enabled ];
}

abbrev pub no_config : RuleConfig
no_config = record { severity = ""; enabled = none }

-- What the effective switch and severity make of a finding.
unfoldable pub apply_config : Option Bool → String → Finding → Option Finding
unfolding parse_severity
apply_config (some false) s f = none
apply_config _ s f = elim (parse_severity s) [
  | some sev ↦ some (record f { severity = sev })
  | none ↦ if s == "off" then none else some f
]

module _ (glob : String → String → Bool) where
  unfoldable pub match_pattern : String → String → Bool
  unfolding normalize_slashes is_own_path
  match_pattern pattern path =
      let p = normalize_slashes pattern in
      let q = normalize_slashes path in not (pattern == "") && (glob p q && not (is_own_path p q))

  unfoldable pub path_matches_any : String → List String → Bool
  unfolding match_pattern any
  path_matches_any path patterns = not (path == "") && any (λ p. match_pattern p path) patterns

  unfoldable pub merge_overrides : List OverridePolicy → Finding → RuleConfig → RuleConfig
  unfolding path_matches_any
  merge_overrides [] f merged = merged
  merge_overrides (o ∷ os) f merged = merge_overrides os f (
      if path_matches_any f.source_file o.paths
      then override_with (lookup f.rule_name o.rules) merged
      else merged)

  -- mergeRuleConfig on the rule's own entry, or on the zero RuleConfig.
  unfoldable pub merge_rule_config : Policy → Finding → RuleConfig
  unfolding merge_overrides
  merge_rule_config p f =
      merge_overrides p.overrides f
        (elim (lookup f.rule_name p.rules) [ some rc ↦ rc | none ↦ no_config ])

  unfoldable pub apply_rules : Policy → List Finding → List Finding
  unfolding merge_rule_config apply_config
  apply_rules p [] = []
  apply_rules p (f ∷ fs) =
      let rest = apply_rules p fs in
      let effective = merge_rule_config p f in
      elim (apply_config effective.enabled effective.severity f) [
        | some f' ↦ f' ∷ rest
        | none ↦ rest
      ]

  unfoldable pub apply_policy : List Finding → Option Policy → List Finding
  unfolding apply_rules
  apply_policy findings none = findings
  apply_policy findings (some p) =
      if is_empty p.rules && no_overrides p.overrides then findings else apply_rules p findings
