-- ===== src/Samples.antt =====
-- Small workflows and schedules that the tests share.
use mathlib.Core.List.{Permᴰ}
use mathlib.Core.List.Permᴰ
use shingan.Prelude.{String, false, none, some, refl, List, [], ◌∷◌}
use shingan.Prelude.Int.{pos}
use shingan.Domain.NodeType.{NodeType, llm, tool, loop, output}
use shingan.Domain.Finding.{Finding}
use shingan.Application.Orchestrator.{Scheduler}
use shingan.Domain.Graph.{Node, Edge, WorkflowGraph}

abbrev pub bare_node : String → NodeType → Node
bare_node id type = record {
  id = id;
  name = id;
  type = type;
  config = [];
  max_iterations = none;
  tool_category = "";
  model_name = "";
  temperature = none;
  max_concurrency = none;
  pos = record { file = ""; line = 0; col = 0 };
  has_exit_branch = false;
}

abbrev pub edge : String → String → Edge
edge from to = record { from = from; to = to; condition = "" }

abbrev pub edge_if : String → String → String → Edge
edge_if from to condition = record { from = from; to = to; condition = condition }

-- The agent `a` calls the tool `b` and ends in `c`; the memory `m` is attached to `a` by an AI port,
-- and nothing leads to `x`.
abbrev pub agent : WorkflowGraph
agent = record {
  nodes =
      ("a", bare_node "a" llm)
      ∷ ("b", bare_node "b" tool)
      ∷ ("c", bare_node "c" output)
      ∷ ("m", bare_node "m" tool)
      ∷ ("x", bare_node "x" llm)
      ∷ [];
  edges = edge "a" "b" ∷ edge_if "b" "c" "done" ∷ edge_if "m" "a" "ai_memory" ∷ edge "x" "a" ∷ [];
  entry_node_id = "a";
  entry_ambiguous = false;
}

-- `a` and `b` call one another, with no loop node and no way out.
abbrev pub ring : WorkflowGraph
ring = record {
  nodes = ("a", bare_node "a" llm) ∷ ("b", bare_node "b" tool) ∷ [];
  edges = edge "a" "b" ∷ edge "b" "a" ∷ [];
  entry_node_id = "a";
  entry_ambiguous = false;
}

-- The loop node `l`, bounded to five rounds, and its sub-agent `a`.
abbrev pub bounded_loop : WorkflowGraph
bounded_loop = record {
  nodes =
      ("a", bare_node "a" llm)
      ∷ ("l", record (bare_node "l" loop) { max_iterations = some (pos 5) })
      ∷ [];
  edges = edge "l" "a" ∷ edge "a" "l" ∷ [];
  entry_node_id = "l";
  entry_ambiguous = false;
}

-- `ring` with its nodes and edges listed the other way round.
abbrev pub ring_reversed : WorkflowGraph
ring_reversed = record ring {
  nodes = ("b", bare_node "b" tool) ∷ ("a", bare_node "a" llm) ∷ [];
  edges = edge "b" "a" ∷ edge "a" "b" ∷ [];
}

-- The loop node `l` has no bound, and nothing leads to `x`.
abbrev pub looping : WorkflowGraph
looping = record bounded_loop {
  nodes = ("l", bare_node "l" loop) ∷ ("x", bare_node "x" tool) ∷ [];
  edges = edge "l" "l" ∷ [];
}

-- The batches of findings as they stand, and with the first two swapped.
abbrev pub in_order : Scheduler
in_order = record { arrange = λ bs. bs; arrange-perm = Permᴰ.refl }

abbrev pub swap_first : List (List Finding) → List (List Finding)
swap_first (a ∷ b ∷ rest) = b ∷ a ∷ rest
swap_first bs = bs

pub swap_first-perm : (bs : List (List Finding)) → Permᴰ (swap_first bs) bs
swap_first-perm [] = Permᴰ.nil
swap_first-perm (a ∷ []) = Permᴰ.refl (a ∷ [])
swap_first-perm (a ∷ b ∷ rest) = Permᴰ.swap refl refl

abbrev pub swapped : Scheduler
swapped = record { arrange = swap_first; arrange-perm = swap_first-perm }
