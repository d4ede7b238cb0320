-- ===== src/Rules/Registry.antt =====
-- domain/rules/registry.go: the rules that the program ships with. The variable is the argument.
use shingan.Prelude.{List, [], ◌∷◌, ◌++◌}
use shingan.Domain.Context.{AnalysisRule}

unfoldable pub register_builtin : List AnalysisRule → AnalysisRule → List AnalysisRule
register_builtin registry r = registry ++ r ∷ []

-- A fresh slice: a list is a value.
unfoldable pub all_builtins : List AnalysisRule → List AnalysisRule
all_builtins registry = registry
