-- ===== src/Application/Policy/Plugins/Tests.antt =====
-- A policy that requires one plugin.
use shingan.Prelude.{String, true, ◌≡◌, ◌↔◌, none, some, [], ◌∷◌, Memᴰ}
use shingan.Application.Policy.{Policy}
use shingan.Application.Policy.Plugins.{verify_required_plugins}
use shingan.Application.Policy.Plugins.Laws.{is_accepted, verify-none}

abbrev requiring : Policy
requiring = record { rules = []; overrides = []; plugins = "experimental:hello" ∷ [] }

verify-none_example :
    (verify_required_plugins (some requiring) ("experimental:hello" ∷ []) ≡ none) ↔ (
      (want : String)
      → Memᴰ want requiring.plugins
      → is_accepted ("experimental:hello" ∷ []) want ≡ true)
verify-none_example = verify-none requiring ("experimental:hello" ∷ [])
