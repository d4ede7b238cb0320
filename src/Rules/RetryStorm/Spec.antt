-- ===== src/Rules/RetryStorm/Spec.antt =====
-- What the parallelism of a tool and its retries mean, on the graph itself.
use shingan.Prelude.{
  ℕ, ◌≤◌, ◌<◌, ◌*◌, String, ◌≡◌, ◌⊎◌, Option, some, List, Memᴰ, length, lookup, values,
}
use shingan.Prelude.Int.{pos}
use shingan.Domain.NodeType.{tool, loop}
use shingan.Domain.Finding.{Finding, critical, warning, info}
use shingan.Domain.Graph.{Node, Edge, WorkflowGraph, incoming_edges}
use shingan.Domain.Config.{get_max_iterations, get_max_concurrency}
use shingan.Rules.RetryStorm.{Grade, int_config, estimate_parallelism, storm_finding}

-- The greatest of `start` and the numbers with a property.
pub record IsMax (start : ℕ) (S : ℕ → Type 0) (r : ℕ) : Type 0 where
  pub at_least : start ≤ r
  pub bounds : (v : ℕ) → S v → v ≤ r
  pub reached : (r ≡ start) ⊎ S r

-- The bound of a predecessor: the iterations of a loop, or any node's concurrency.
abbrev pub PredSignal : Option Node → ℕ → Type 0
PredSignal o v =
    (pred : Node) × (o ≡ some pred)
    × (((pred.type ≡ loop) × (get_max_iterations pred ≡ some (pos v)))
        ⊎ (get_max_concurrency pred ≡ some (pos v)))

abbrev pub EdgeSignal : WorkflowGraph → String → List Edge → ℕ → Type 0
EdgeSignal g id es v = (e : Edge) × Memᴰ e es × (e.to ≡ id) × PredSignal (lookup e.from g.nodes) v

-- An upper bound that the graph declares for the calls in flight to a node: its own concurrency, its
-- incoming edges, or a bound of a node that an edge comes from.
abbrev pub Signal : WorkflowGraph → Node → ℕ → Type 0
Signal g src v =
    (get_max_concurrency src ≡ some (pos v))
    ⊎ ((v ≡ length (incoming_edges g src.id)) ⊎ EdgeSignal g src.id g.edges v)

-- A key of a node's settings counts at least three retries.
abbrev pub HasCount : Node → String → ℕ → Type 0
HasCount n key v = (int_config n key ≡ some (pos v)) × (3 ≤ v)

abbrev pub Counts : Node → String → Type 0
Counts n key = (v : ℕ) × HasCount n key v

-- The retries of a node, and the first of the three keys that counts them.
abbrev pub IsCount : Node → ℕ → String → Type 0
IsCount n v key =
    ((key ≡ "retries") × HasCount n "retries" v)
    ⊎ (((key ≡ "max_retries") × HasCount n "max_retries" v × (¬ Counts n "retries"))
        ⊎ ((key ≡ "retry_count")
            × HasCount n "retry_count" v
            × (¬ Counts n "retries")
            × (¬ Counts n "max_retries")))

-- The grade of a blast radius: from 100, from 30 and from 10.
abbrev pub HasGrade : ℕ → Grade → Type 0
HasGrade blast how =
    ((100 ≤ blast)
      × (how ≡ record { severity = critical; confidence = 90; reason = "exact_static_match" }))
    ⊎ (((30 ≤ blast)
          × (blast < 100)
          × (how ≡ record { severity = warning; confidence = 70; reason = "heuristic_pattern" }))
        ⊎ ((10 ≤ blast)
            × (blast < 30)
            × (how ≡ record { severity = info; confidence = 50; reason = "heuristic_pattern" })))

-- The finding of a tool of the graph with at least three retries and this grade.
pub record IsStorm (g : WorkflowGraph) (f : Finding) (n : Node) : Type 0 where
  pub listed : Memᴰ n (values g.nodes)
  pub is_tool : n.type ≡ tool
  pub retries : ℕ
  pub key : String
  pub how : Grade
  pub counted : IsCount n retries key
  pub graded : HasGrade (retries * estimate_parallelism g n) how
  pub finding :
      let par = estimate_parallelism g n in
      f ≡ storm_finding n.id key retries par (pos (retries * par)) how
