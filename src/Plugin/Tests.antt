-- ===== src/Plugin/Tests.antt =====
-- A plugin that is registered, and each theorem at it.
use mathlib.Core.List.Memᴰ
use shingan.Prelude.{
  String, ◌==◌, ◌≡◌, ◌≢◌, refl, sym, ap, ◌∙◌, subst, ◌↔◌, ◌⊎◌, Option, none, some, List, [], ◌∷◌,
  Memᴰ, false, if◌then◌else◌,
}
use shingan.Prelude.Int.{pos}
use shingan.Domain.Finding.{info}
use shingan.Domain.Context.{AnalysisRule}
use shingan.Application.Policy.{Policy}
use shingan.Application.Policy.Plugins.{verify_required_plugins}
use shingan.Plugin.{Manifest, Registry, Build, register, reset, rules, unknown_framework}
use shingan.Plugin.Accepted.{IsAcceptable}
use shingan.Plugin.Laws.{HasName, with_entry, reset-IsRegistry, register-outcome}
use shingan.Plugin.Required.{registered, rule_names, verify-register}

-- A package semver that knows one version.
abbrev build : Build
build = record {
  is_valid = λ v. v == "v0.9.0";
  compare = λ v w. if v == w then pos 0 else pos 1;
  version = "0.9.0";
}

abbrev hello : AnalysisRule
hello = record {
  name = "experimental:hello";
  analyze = λ _. [];
  as_global = none;
  as_path = none;
  as_local = none;
  sdk_version = some "0.9.0";
  message_template = none;
}

abbrev manifest : Manifest
manifest = record {
  severity = info;
  description = "Says hello";
  fixable = false;
  frameworks = "langgraph" ∷ [];
  tags = "greeting" ∷ [];
  docs_url = "";
  min_shingan_version = "0.9.0";
}

abbrev one : Registry
one = (register build [] reset (some hello) manifest).0

register-hello :
    (one.names ≡ "experimental:hello" ∷ [])
    × ((register build [] one (some hello) manifest).0 ≡ one)
unfolding register shingan.Prelude.any reset
register-hello = (refl, refl)

register-framework :
    (register build [] reset (some hello) (record manifest { frameworks = "bun" ∷ [] })).1
    ≡ some unknown_framework
unfolding register
register-framework = refl

register-outcome_example :
    let done = register build [] reset (some hello) manifest in
    (done.1 ≡ none)
      × (IsAcceptable build [] hello manifest × (¬ HasName reset hello.name))
      × (done.0.registry ≡ with_entry reset hello manifest)
    ⊎ (done.1 ≢ none)
      × (¬ (IsAcceptable build [] hello manifest × (¬ HasName reset hello.name)))
      × (done.0 ≡ reset)
register-outcome_example =
    register-outcome build [] reset hello manifest (reset-IsRegistry build [])

abbrev requiring : Policy
requiring = record { rules = []; overrides = []; plugins = "experimental:hello" ∷ [] }

abbrev hello_call : List (Option AnalysisRule × Manifest)
hello_call = (some hello, manifest) ∷ []

hello-registered :
    (want : String)
    → Memᴰ want requiring.plugins
    → Memᴰ want (rule_names (registered build [] reset hello_call))
unfolding register rules shingan.Prelude.any reset
hello-registered want m = Memᴰ.head (Memᴰ.eq_of_singleton m)

verify-register_example :
    verify_required_plugins (some requiring) (rule_names (registered build [] reset hello_call))
    ≡ none
verify-register_example = verify-register build [] hello_call requiring hello-registered
