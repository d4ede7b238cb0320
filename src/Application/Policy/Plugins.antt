-- ===== src/Application/Policy/Plugins.antt =====
-- application/policy.go, VerifyRequiredPlugins: the names of the plugins that a policy requires.
pub mod Laws
mod Tests
use Prim.Native.Char.{code}
use shingan.Prelude.{
  ℕ, suc, String, Bool, true, false, not, ◌&&◌, ◌||◌, ◌==◌, Option, none, some, List, [], ◌∷◌, ◌++◌,
  foldl, leb, nat_eq, contains, length, if◌then◌else◌,
}
use shingan.Prelude.Text.{codes}
use shingan.Application.Ignore.RuleList.{trim, is_space}
use shingan.Application.Policy.{Policy}

abbrev pub experimental_prefix : String
experimental_prefix = "experimental:"

-- strings.HasPrefix and strings.TrimPrefix
unfoldable pub cut_prefix : String → String → Option String
cut_prefix String.[] s = some s
cut_prefix (String.◌∷◌ c p) String.[] = none
cut_prefix (String.◌∷◌ c p) (String.◌∷◌ d s) =
    let rest = cut_prefix p s in if nat_eq (code c) (code d) then rest else none

abbrev pub is_lower : ℕ → Bool
is_lower c = leb b'a' c && leb c b'z'

unfoldable pub all_slug : List ℕ → Bool
all_slug [] = true
all_slug (c ∷ cs) = (is_lower c || leb b'0' c && leb c b'9' || nat_eq c b'_') && all_slug cs

-- ^[a-z][a-z0-9_]{0,63}$
unfoldable pub slug : List ℕ → Bool
unfolding all_slug
slug [] = false
slug (c ∷ cs) = is_lower c && (all_slug cs && leb (length cs) 63)

unfoldable pub is_valid_suffix : String → Bool
unfolding slug codes
is_valid_suffix s = slug (codes s)

-- The four lists that the loop fills.
pub record PluginFaults : Type 0 where
  pub bad_prefix : List String
  pub bad_grammar : List String
  pub bad_whitespace : List String
  pub missing : List String

abbrev pub no_faults : PluginFaults
no_faults = record { bad_prefix = []; bad_grammar = []; bad_whitespace = []; missing = [] }

-- The rest of the body, after the prefix is cut.
unfoldable pub check_suffix : List String → String → Option String → PluginFaults → PluginFaults
unfolding is_valid_suffix
check_suffix available want none f = record f { bad_prefix = f.bad_prefix ++ want ∷ [] }
check_suffix available want (some suffix) f =
    if not (is_valid_suffix suffix)
    then record f { bad_grammar = f.bad_grammar ++ want ∷ [] }
    else if contains available want
    then f
    else record f { missing = f.missing ++ want ∷ [] }

unfoldable pub check_plugin : List String → PluginFaults → String → PluginFaults
unfolding check_suffix cut_prefix
check_plugin available f want =
    if want == ""
    then f
    else if not (trim is_space want == want)
    then record f { bad_whitespace = f.bad_whitespace ++ want ∷ [] }
    else check_suffix available want (cut_prefix experimental_prefix want) f

abbrev pub is_nil : List String → Bool
is_nil [] = true
is_nil (_ ∷ _) = false

abbrev pub is_clean : PluginFaults → Bool
is_clean f =
    is_nil f.bad_prefix && (is_nil f.bad_grammar && (is_nil f.bad_whitespace && is_nil f.missing))

-- The error, if there is one, as the lists that its text names.
unfoldable pub verify_required_plugins : Option Policy → List String → Option PluginFaults
unfolding check_plugin
verify_required_plugins none available = none
verify_required_plugins (some p) available =
    let faults = foldl (check_plugin available) no_faults p.plugins in
    if is_clean faults then none else some faults
