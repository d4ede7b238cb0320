-- ===== src/Rules/CircularAgents/Silent.antt =====
-- When the rule reports nothing.
use mathlib.Core.List.Memᴰ
use shingan.Prelude.{
  suc, String, true, false, ◌≡◌, ◌≢◌, refl, sym, ap, subst, ◌↔◌, ◌⊎◌, inl, inr, Option, none, some,
  List, [], ◌∷◌, ◌++◌, Memᴰ, foldl, select, any, any_iff, contains, contains_iff, values, map,
  length, is_empty, arith, Bool-cases, ◌==◌, eq_iff, Memᴰ-select, false_iff, select_of_empty,
  List-cases,
}
use shingan.Prelude.Text.{str_ltb}
use shingan.Prelude.Sort.{sort, Memᴰ-sort}
use shingan.Domain.Graph.{WorkflowGraph, Node, Edge, outgoing_edges}
use shingan.Rules.CircularAgents.{
  is_agent_node, sources, CycleInfo, found_info, self_info, cycle_key, cycle_finding, dfs, Reports,
  report, report_found, check_self, check_source, run_circular_dep_agents_dfs, no_nodes, analyze,
}
use shingan.Rules.CircularAgents.Spec.{Goes, AgentId, Circular}
use shingan.Rules.CircularAgents.Rounds.{Circle, search_some, search_none}

abbrev nothing : Reports
nothing = record { emitted = []; findings = [] }

abbrev IsLoud : Reports → Type 0
IsLoud r = r.findings ≢ []

concat-nonempty : {A : Type 0} (xs : List A) (x : A) → xs ++ x ∷ [] ≢ []
concat-nonempty [] x e = cc e
concat-nonempty (y ∷ xs) x e = cc e

report-IsLoud : (r : Reports) (id : String) (i : CycleInfo) → IsLoud r → IsLoud (report r id i)
unfolding report
report-IsLoud r id i loud = elim (Bool-cases (contains r.emitted (cycle_key id i))) [
  | inl t ↦ rw t loud
  | inr f ↦ rw f (λ e. concat-nonempty r.findings (cycle_finding id i) e)
]

report_first : (id : String) (i : CycleInfo) → IsLoud (report nothing id i)
unfolding report contains
report_first id i e = cc e

module _ (g : WorkflowGraph) (agents : List String) where
  -- The agent hands over to itself, or is on a circle with another.
  abbrev IsCaught : String → Type 0
  IsCaught id = Goes g id id ⊎ ((xs : List String) × Circle g agents id xs)

  abbrev search : String → Option (List String)
  search id = dfs (suc (length g.nodes)) g agents id id (id ∷ []) (id ∷ [])

  self_iff : (id : String) → (any (λ e. e.to == id) (outgoing_edges g id) ≡ true) ↔ Goes g id id
  unfolding outgoing_edges
  self_iff id =
      let found = any_iff (λ (e : Edge). e.to == id) (outgoing_edges g id) in
      (
        λ h.
            let (e, at, to) = found.0 h in
            let (there, from) = (Memᴰ-select e (λ d. d.from == id) g.edges).0 at in
            (e, there, (eq_iff e.from id).0 from, (eq_iff e.to id).0 to),
        λ (e, there, from, to). found.1 (
          e,
          (Memᴰ-select e (λ d. d.from == id) g.edges).1 (there, (eq_iff e.from id).1 from),
          (eq_iff e.to id).1 to,
        ),
      )

  check_self-IsLoud : (r : Reports) (id : String) → IsLoud r → IsLoud (check_self g r id)
  unfolding check_self
  check_self-IsLoud r id loud = elim (Bool-cases (any (λ e. e.to == id) (outgoing_edges g id))) [
    | inl t ↦ rw t (report-IsLoud r id (self_info id) loud)
    | inr f ↦ rw f loud
  ]

  found-IsLoud :
      (r : Reports) (id : String) (o : Option (List String))
      → IsLoud r
      → IsLoud (report_found agents id r o)
  unfolding report_found
  found-IsLoud r id none loud = loud
  found-IsLoud r id (some p) loud = report-IsLoud r id (found_info agents id p) loud

  check_source-IsLoud : (r : Reports) (n : Node) → IsLoud r → IsLoud (check_source g agents r n)
  unfolding check_source
  check_source-IsLoud r n loud =
      found-IsLoud (check_self g r n.id) n.id (search n.id) (check_self-IsLoud r n.id loud)

  found_first :
      (id : String) (o : Option (List String))
      → (o ≡ none) × (report_found agents id nothing o ≡ nothing)
        ⊎ ((p : List String) × (o ≡ some p) × IsLoud (report_found agents id nothing o))
  unfolding report_found
  found_first id none = inl (refl, refl)
  found_first id (some p) = inr (p, refl, report_first id (found_info agents id p))

  check_self-cases :
      (id : String)
      → (¬ Goes g id id) × (check_self g nothing id ≡ nothing)
        ⊎ Goes g id id × IsLoud (check_self g nothing id)
  unfolding check_self
  check_self-cases id = elim (Bool-cases (any (λ e. e.to == id) (outgoing_edges g id))) [
    | inl t ↦ inr ((self_iff id).0 t, rw t (report_first id (self_info id)))
    | inr f ↦
        inl ((false_iff (any (λ e. e.to == id) (outgoing_edges g id)) (self_iff id)).0 f, rw f refl)
  ]

  check_source-cases :
      (n : Node)
      → contains agents n.id ≡ true
      → (¬ IsCaught n.id) × (check_source g agents nothing n ≡ nothing)
        ⊎ IsCaught n.id × IsLoud (check_source g agents nothing n)
  unfolding check_source
  check_source-cases n agent = elim (check_self-cases n.id) [
    | inr (goes, loud) ↦
        inr (inl goes, found-IsLoud (check_self g nothing n.id) n.id (search n.id) loud)
    | inl (stays, quiet) ↦ elim (found_first n.id (search n.id)) [
      | inl (none_found, same) ↦ inl (
        λ c. elim c [
          | inl goes ↦ stays goes
          | inr circle ↦ search_none g agents n.id agent none_found circle.0 circle.1
        ],
        subst (λ r. report_found agents n.id r (search n.id) ≡ nothing) (sym quiet) same,
      )
      | inr (p, found, loud) ↦ inr (
        inr (search_some g agents n.id agent p found),
        subst (λ r. IsLoud (report_found agents n.id r (search n.id))) (sym quiet) loud,
      )
    ]
  ]

  abbrev pub run : List Node → Reports → Reports
  run ns r = foldl (check_source g agents) r ns

  run-IsLoud : (ns : List Node) (r : Reports) → IsLoud r → IsLoud (run ns r)
  run-IsLoud [] r loud = loud
  run-IsLoud (n ∷ ns) r loud =
      run-IsLoud ns (check_source g agents r n) (check_source-IsLoud r n loud)

  run_iff :
      (ns : List Node)
      → ((n : Node) → Memᴰ n ns → contains agents n.id ≡ true)
      → ((run ns nothing).findings ≡ []) ↔ ((n : Node) → Memᴰ n ns → ¬ IsCaught n.id)
  run_iff [] all = (λ _ n m. absurd (Memᴰ.not-nil m), λ _. refl)
  run_iff (n ∷ ns) all =
      let later = run_iff ns (λ m at. all m (Memᴰ.tail at)) in
      elim (check_source-cases n (all n (Memᴰ.head refl))) [
        | inr (caught, loud) ↦ (
          λ e. absurd (run-IsLoud ns (check_source g agents nothing n) loud e),
          λ free. absurd (free n (Memᴰ.head refl) caught),
        )
        | inl (free_here, same) ↦
            subst
              (λ r. ((run ns r).findings ≡ []) ↔ ((m : Node) → Memᴰ m (n ∷ ns) → ¬ IsCaught m.id))
              (sym same)
              (
                λ e m at. elim (Memᴰ.cases_cons at) [
                  | inl is ↦ subst (λ (x : Node). ¬ IsCaught x.id) (sym is) free_here
                  | inr there ↦ later.0 e m there
                ],
                λ free. later.1 (λ m at. free m (Memᴰ.tail at)),
              )
      ]

module _ (g : WorkflowGraph) where
  sources_iff :
      (n : Node) → Memᴰ n (sources g) ↔ (Memᴰ n (values g.nodes) × (is_agent_node n ≡ true))
  unfolding sources
  sources_iff n = ground (
    arith,
    Memᴰ-sort (λ (a b : Node). str_ltb a.id b.id) n (select is_agent_node (values g.nodes)),
    Memᴰ-select n is_agent_node (values g.nodes),
  )

  abbrev ids : List String
  ids = map (λ n. n.id) (sources g)

  ids_iff : (a : String) → (contains ids a ≡ true) ↔ AgentId g a
  ids_iff a = (
    λ h.
        let (n, at, is) = Memᴰ.of_map (λ (x : Node). x.id) (sources g) ((contains_iff ids a).0 h) in
        let (listed, agent) = (sources_iff n).0 at in (n, listed, agent, is),
    λ (n, listed, agent, is).
        let at = Memᴰ.map (λ (x : Node). x.id) ((sources_iff n).1 (listed, agent)) in
        (contains_iff ids a).1 (subst (λ x. Memᴰ x ids) is at),
  )

  IsCaught-Circular : (a : String) → IsCaught g ids a ↔ Circular g a
  IsCaught-Circular a = (
    λ h. elim h [
      | inl goes ↦ inl goes
      | inr (xs, (round, (b, at, agent))) ↦ inr (xs, round, (b, at, (ids_iff b).0 agent))
    ],
    λ h. elim h [
      | inl goes ↦ inl goes
      | inr (xs, round, (b, at, agent)) ↦ inr (xs, (round, (b, at, (ids_iff b).1 agent)))
    ],
  )

  no_sources : sources g ≡ [] → run_circular_dep_agents_dfs g (sources g) ≡ []
  unfolding run_circular_dep_agents_dfs
  no_sources e = ap (λ ns. run_circular_dep_agents_dfs g ns) e

  empty_sources : is_empty g.nodes ≡ true → sources g ≡ []
  unfolding sources sort
  empty_sources e = rw (select_of_empty is_agent_node g.nodes e) refl

  -- The two tests for an empty list change nothing.
  analyze-run : analyze (some g) ≡ run_circular_dep_agents_dfs g (sources g)
  unfolding analyze
  analyze-run = elim (Bool-cases (is_empty g.nodes)) [
    | inl t ↦ rw t (sym (no_sources (empty_sources t)))
    | inr f ↦ elim (List-cases (sources g)) [
      | inl e ↦
          let none_left : no_nodes (sources g) ≡ true = ap no_nodes e in
          rw (f, none_left) (sym (no_sources e))
      | inr (n, ns, e) ↦
          let some_left : no_nodes (sources g) ≡ false = ap no_nodes e in rw (f, some_left) refl
    ]
  ]

-- The rule reports nothing exactly if no agent of the graph has an edge to itself or lies on a circle
-- with another agent that visits no node twice.
pub analyze-Circular :
    (g : WorkflowGraph) → (analyze (some g) ≡ []) ↔ ((a : String) → AgentId g a → ¬ Circular g a)
unfolding run_circular_dep_agents_dfs
analyze-Circular g =
    let all = λ (n : Node) (at : Memᴰ n (sources g)).
      (contains_iff (ids g) n.id).1 (Memᴰ.map (λ (x : Node). x.id) at) in
    let runs = run_iff g (ids g) (sources g) all in
    rw (analyze-run g) (
      λ e a (n, listed, agent, is) c.
          runs.0 e n ((sources_iff g n).1 (listed, agent))
            (subst (IsCaught g (ids g)) (sym is) ((IsCaught-Circular g a).1 c)),
      λ free. runs.1 (λ n at c.
          let (listed, agent) = (sources_iff g n).0 at in
          free n.id (n, listed, agent, refl) ((IsCaught-Circular g n.id).0 c)),
    )
