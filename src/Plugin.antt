-- ===== src/Plugin.antt =====
-- plugin/plugin.go: the registry of the rules that plugins bring, and what a rule must satisfy to be
-- registered. The package semver and the version that the linker sets are parameters; the lock only
-- makes each call one step.
pub mod Accepted
pub mod Laws
pub mod Required
pub mod Sdk
mod Tests
use Prim.Native.String.{◌++◌ as ◌+++◌}
use shingan.Prelude.{
  ℕ, String, Bool, true, false, not, ◌&&◌, ◌||◌, ◌==◌, Option, none, some, List, [], ◌∷◌, ◌++◌, map,
  any, contains, length, leb, ltb, nat_eq, if◌then◌else◌,
}
use shingan.Prelude.Int.{ℤ, pos, negsuc}
use shingan.Prelude.Text.{codes}
use shingan.Domain.Finding.{Severity}
use shingan.Domain.Context.{AnalysisRule}
use shingan.Application.Ignore.RuleList.{trim, is_space, trim_left, trim_right}
use shingan.Application.Policy.Plugins.{cut_prefix}

pub record Manifest : Type 0 where
  pub severity : Severity
  pub description : String
  pub fixable : Bool
  pub frameworks : List String
  pub tags : List String
  pub docs_url : String
  pub min_shingan_version : String

pub record Registered : Type 0 where
  pub rule : AnalysisRule
  pub manifest : Manifest

-- The variables `registry` and `names`, the latter as the keys of the map.
pub record Registry : Type 0 where
  pub registry : List Registered
  pub names : List String

-- golang.org/x/mod/semver, and version.Version.
pub record Build : Type 0 where
  pub is_valid : String → Bool
  pub compare : String → String → ℤ
  pub version : String

-- The errors of Register, by the place that makes them.
pub data RegisterError : Type 0 where
  nil_rule invalid_prefix invalid_suffix empty_manifest unknown_framework : RegisterError
  empty_tag control_in_tag line_in_description control_in_description : RegisterError
  bad_version bad_binary_version version_mismatch builtin_collision plugin_collision : RegisterError

unfoldable pub valid_frameworks : List String
valid_frameworks = "langgraph" ∷ "crewai" ∷ "n8n" ∷ "adk-go" ∷ "samurai" ∷ "json" ∷ "all" ∷ []

-- version.IsDev
unfoldable pub is_dev : String → Bool
is_dev v = v == "dev" || v == ""

-- "v" + s
abbrev pub with_v : String → String
with_v s = "v" +++ s

-- strings.TrimPrefix
abbrev pub trim_prefix : String → String → String
trim_prefix prefix s = elim (cut_prefix prefix s) [ none ↦ s | some rest ↦ rest ]

abbrev pub is_negative : ℤ → Bool
is_negative (pos _) = false
is_negative (negsuc _) = true

-- `if err := …; err != nil { return err }`, before the rest.
abbrev pub or_error : Option RegisterError → Option RegisterError → Option RegisterError
or_error (some e) rest = some e
or_error none rest = rest

-- A loop that returns at the first entry with an error.
unfoldable pub first_error :
    {A : Type 0} → (A → Option RegisterError) → List A → Option RegisterError
first_error check [] = none
first_error check (x ∷ xs) = let later = first_error check xs in or_error (check x) later

unfoldable pub check_shingan_version : Build → String → Option RegisterError
unfolding is_dev cut_prefix
check_shingan_version b min =
    let binary = with_v (trim_prefix "v" b.version) in
    if min == ""
    then none
    else if is_dev b.version
    then none
    else if not (b.is_valid (with_v min))
    then some bad_version
    else if not (b.is_valid binary)
    then some bad_binary_version
    else if is_negative (b.compare binary (with_v min))
    then some version_mismatch
    else none

abbrev pub is_control : ℕ → Bool
is_control c = ltb c 32 || nat_eq c 127

unfoldable pub check_framework : String → Option RegisterError
unfolding valid_frameworks contains
check_framework fw = if contains valid_frameworks fw then none else some unknown_framework

unfoldable pub check_tag : String → Option RegisterError
unfolding is_space trim_left trim_right codes
check_tag t =
    if trim is_space t == ""
    then some empty_tag
    else if any is_control (codes t)
    then some control_in_tag
    else none

unfoldable pub check_rune : ℕ → Option RegisterError
check_rune c =
    if nat_eq c 10 || nat_eq c 13
    then some line_in_description
    else if is_control c
    then some control_in_description
    else none

abbrev pub is_nil : List String → Bool
is_nil [] = true
is_nil (_ ∷ _) = false

-- The checks on the manifest, in order.
unfoldable pub check_manifest : Build → Manifest → Option RegisterError
unfolding check_framework check_tag check_rune check_shingan_version first_error
check_manifest b m =
    if is_nil m.frameworks || is_nil m.tags
    then some empty_manifest
    else or_error (first_error check_framework m.frameworks) (
        or_error (first_error check_tag m.tags) (
          or_error (first_error check_rune (codes m.description))
            (check_shingan_version b m.min_shingan_version)))

-- The constant and the expression of this package; application/policy.go declares its own.
abbrev pub experimental_prefix : String
experimental_prefix = "experimental:"

abbrev pub is_small_letter : ℕ → Bool
is_small_letter c = leb b'a' c && leb c b'z'

-- [a-z0-9_]*
unfoldable pub is_name_tail : List ℕ → Bool
is_name_tail [] = true
is_name_tail (c ∷ cs) =
    (is_small_letter c || leb b'0' c && leb c b'9' || nat_eq c b'_') && is_name_tail cs

unfoldable pub is_name_slug : List ℕ → Bool
unfolding is_name_tail
is_name_slug [] = false
is_name_slug (c ∷ cs) = is_small_letter c && (is_name_tail cs && leb (length cs) 63)

-- ^[a-z][a-z0-9_]{0,63}$
unfoldable pub valid_name_suffix : String → Bool
unfolding is_name_slug codes
valid_name_suffix s = is_name_slug (codes s)

-- The check of the name after the prefix is cut.
unfoldable pub check_name : Option String → Option RegisterError
unfolding valid_name_suffix
check_name none = some invalid_prefix
check_name (some suffix) = if valid_name_suffix suffix then none else some invalid_suffix

-- What Register refuses before it takes the lock.
unfoldable pub check_rule :
    Build → List AnalysisRule → AnalysisRule → Manifest → Option RegisterError
unfolding check_name check_manifest cut_prefix
check_rule b builtins rule m = or_error (check_name (cut_prefix experimental_prefix rule.name)) (
    or_error (check_manifest b m) (
      if any (λ builtin. builtin.name == rule.name) builtins then some builtin_collision else none))

-- The rest of Register, under the lock. The copies of the slices are the slices, as values.
unfoldable pub store : Registry → AnalysisRule → Manifest → Registry × Option RegisterError
unfolding contains
store r rule m = if contains r.names rule.name then (r, some plugin_collision) else (
  record {
    registry = r.registry ++ record { rule = rule; manifest = m } ∷ [];
    names = rule.name ∷ r.names;
  },
  none,
)

-- Register on a rule that passed, or did not pass, the checks.
unfoldable pub store_checked :
    Registry → AnalysisRule → Manifest → Option RegisterError → Registry × Option RegisterError
unfolding store
store_checked r rule m none = store r rule m
store_checked r rule m (some e) = (r, some e)

unfoldable pub register :
    Build
    → List AnalysisRule
    → Registry
    → Option AnalysisRule
    → Manifest
    → Registry × Option RegisterError
unfolding store_checked check_rule
register b builtins r none m = (r, some nil_rule)
register b builtins r (some rule) m = store_checked r rule m (check_rule b builtins rule m)

-- MustRegister: `none` is a panic.
unfoldable pub must_register :
    Build → List AnalysisRule → Registry → Option AnalysisRule → Manifest → Option Registry
unfolding register
must_register b builtins r rule m =
    let (after, error) = register b builtins r rule m in
    elim error [ none ↦ some after | some e ↦ none ]

unfoldable pub registered_rules : Registry → List Registered
registered_rules r = r.registry

unfoldable pub rules : Registry → List AnalysisRule
rules r = map (λ entry. entry.rule) r.registry

-- The state of a new process, and of resetForTest.
unfoldable pub reset : Registry
reset = record { registry = []; names = [] }
