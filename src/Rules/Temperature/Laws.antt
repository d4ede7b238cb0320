-- ===== src/Rules/Temperature/Laws.antt =====
-- When the rule is silent.
use mathlib.Core.List.Memᴰ
use shingan.Prelude.{Bool, true, not, ◌&&◌, ◌||◌, ◌==◌, ◌≡◌, ◌⊎◌, List, Memᴰ}
use shingan.Domain.Value.{Float}
use shingan.Domain.Finding.{Finding}
use shingan.Domain.Graph.{Node}
use shingan.Rules.Temperature.{is_positive, is_warm, is_structured, is_json, task_category}

-- A task that wants one answer each time, run with a temperature that varies it.
abbrev pub IsMisused : Node → Float → Type 0
IsMisused n t =
    (is_positive t ≡ true)
      × ((is_structured n ≡ true)
          ⊎ (is_json n ≡ true)
          ⊎ (task_category n ≡ "code_generation")
          ⊎ (task_category n ≡ "extraction")
          ⊎ (task_category n ≡ "structured_output"))
    ⊎ (task_category n ≡ "classification") × (is_warm t ≡ true)

abbrev misuses : Node → Float → Bool
misuses n t =
    is_positive t
      && ((is_structured n || is_json n)
          || (not (task_category n == "classification")
              && (task_category n == "code_generation"
                  || (task_category n == "extraction" || task_category n == "structured_output"))))
    || (task_category n == "classification") && is_warm t
