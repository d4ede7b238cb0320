-- ===== src/Rules/CircularAgents/Search.antt =====
-- What the search from an agent finds: a circle with another agent, if there is one.
use mathlib.Core.List.Memᴰ
use shingan.Prelude.{
  append_one, append_nil, ℕ, zero, suc, ◌≤◌, String, true, false, ◌==◌, ◌≡◌, refl, sym, ap, ◌∙◌,
  subst, ◌↔◌, ◌⊎◌, inl, inr, Option, none, some, List, [], ◌∷◌, ◌++◌, Memᴰ, contains, contains_iff,
  keys, length, leb, arith, eq_iff, Bool-cases, Option-cases, some_inj, str_cases, false_iff,
  Memᴰ-select,
}
use shingan.Domain.Graph.{Edge, WorkflowGraph, outgoing_edges}
use shingan.Rules.CircularAgents.{members_from, SearchFrom, or_found, scan, dfs}
use shingan.Rules.CircularAgents.Spec.{Goes, Round}

-- A path that `dfs` takes for a cycle.
abbrev pub Counts : List String → List String → Type 0
Counts agents path =
    (leb 2 (length path) ≡ true) × (leb 2 (length (members_from agents [] path)) ≡ true)

module _ (g : WorkflowGraph) (agents : List String) (src : String) where
  -- What a search that goes at most so deep answers.
  pub record IsSearch (depth : ℕ) (search : SearchFrom) : Type 0 where
    pub sound :
        (u : String) (path visited p : List String)
        → contains visited src ≡ true
        → search u path visited ≡ some p
        → (xs : List String) × Round g src u visited xs × (p ≡ path ++ xs) × Counts agents p
    pub complete :
        (u : String) (path visited xs : List String)
        → contains visited src ≡ true
        → suc (length xs) ≤ depth
        → search u path visited ≡ none
        → Round g src u visited xs
        → ¬ Counts agents (path ++ xs)

  -- The first step of a round, by the edge.
  abbrev Through : List Edge → List String → List String → Type 0
  Through es visited [] = (e : Edge) × Memᴰ e es × (e.to ≡ src)
  Through es visited (x ∷ xs) =
      ((e : Edge) × Memᴰ e es × (e.to ≡ x))
      × Memᴰ x (keys g.nodes)
      × (contains visited x ≡ false)
      × Round g src x (x ∷ visited) xs

  module _ (depth : ℕ) (search : SearchFrom) (good : IsSearch depth search)
      (path visited : List String) (has_src : contains visited src ≡ true) where
    abbrev go : List Edge → Option (List String)
    go es = scan g agents src search path visited es

    later :
        {p : List String} (e : Edge) (es : List Edge)
        → (xs : List String) × Through es visited xs × (p ≡ path ++ xs) × Counts agents p
        → (xs : List String) × Through (e ∷ es) visited xs × (p ≡ path ++ xs) × Counts agents p
    later e es h = (h.0, weaken h.0 h.1, h.2, h.3)
      where
        weaken : (ys : List String) → Through es visited ys → Through (e ∷ es) visited ys
        weaken [] (d, at, is) = (d, Memᴰ.tail at, is)
        weaken (y ∷ ys) ((d, at, is), key, new, round) = ((d, Memᴰ.tail at, is), key, new, round)

    abbrev below : Edge → Option (List String)
    below e = search e.to (path ++ e.to ∷ []) (e.to ∷ visited)

    -- One edge: it closes a cycle that counts, or it is passed over, or the search goes on behind it.
    abbrev Closes : Edge → Type 0
    Closes e = (e.to ≡ src) × Counts agents path

    abbrev Blocked : Edge → Type 0
    Blocked e = (contains visited e.to ≡ true) ⊎ (¬ Memᴰ e.to (keys g.nodes))

    abbrev Open : Edge → Type 0
    Open e = (contains visited e.to ≡ false) × Memᴰ e.to (keys g.nodes)

    scan-cases :
        (e : Edge) (es : List Edge)
        → (Closes e × (go (e ∷ es) ≡ some path))
          ⊎ (((¬ Closes e) × Blocked e × (go (e ∷ es) ≡ go es))
              ⊎ (Open e × (go (e ∷ es) ≡ or_found (below e) (go es))))
    unfolding scan
    scan-cases e es = elim (str_cases e.to src) [
      | inl (same, t) ↦
          let seen : contains visited e.to ≡ true =
            subst (λ x. contains visited x ≡ true) (sym same) has_src in
          elim (Bool-cases (leb 2 (length path))) [
            | inr short ↦ inr (inl (λ c. cc (c.1.0, short), inl seen, rw (t, short, seen) refl))
            | inl long ↦ elim (Bool-cases (leb 2 (length (members_from agents [] path)))) [
              | inl many ↦ inl ((same, (long, many)), rw (t, long, many) refl)
              | inr few ↦ inr (inl (λ c. cc (c.1.1, few), inl seen, rw (t, long, few) refl))
            ]
          ]
      | inr (other, f) ↦ elim (Bool-cases (contains visited e.to)) [
        | inl seen ↦ inr (inl (λ c. other c.0, inl seen, rw (f, seen) refl))
        | inr new ↦ elim (Bool-cases (contains (keys g.nodes) e.to)) [
          | inl key ↦
              inr (inr ((new, (contains_iff (keys g.nodes) e.to).0 key), rw (f, new, key) refl))
          | inr gone ↦ inr (
              inl (
                λ c. other c.0,
                inr (
                    (false_iff (contains (keys g.nodes) e.to) (contains_iff (keys g.nodes) e.to)).0
                      gone),
                rw (f, new, gone) refl,
              ))
        ]
      ]
    ]

    still : (x : String) → contains (x ∷ visited) src ≡ true
    still x = (contains_iff (x ∷ visited) src).1 (Memᴰ.tail ((contains_iff visited src).0 has_src))

    scan_sound :
        (es : List Edge) (p : List String)
        → go es ≡ some p
        → (xs : List String) × Through es visited xs × (p ≡ path ++ xs) × Counts agents p
    unfolding scan
    scan_sound [] p h = cc h
    scan_sound (e ∷ es) p h = elim (scan-cases e es) [
      | inl ((same, counts), found) ↦
          let is : path ≡ p = some_inj (sym found ∙ h) in
          (
            [],
            (e, Memᴰ.head refl, same),
            sym is ∙ sym (append_nil path),
            subst (Counts agents) is counts,
          )
      | inr (inl (_, _, on)) ↦ later e es (scan_sound es p (sym on ∙ h))
      | inr (inr ((new, key), on)) ↦ elim (Option-cases (below e)) [
        | inl none_below ↦
            later e es
              (scan_sound es p (ap (λ o. or_found o (go es)) (sym none_below) ∙ sym on ∙ h))
        | inr (q, found) ↦
            let is : q ≡ p = some_inj (ap (λ o. or_found o (go es)) (sym found) ∙ sym on ∙ h) in
            let (xs, round, shape, counts) =
              good.sound e.to (path ++ e.to ∷ []) (e.to ∷ visited) q (still e.to) found in
            (
              e.to ∷ xs,
              ((e, Memᴰ.head refl, refl), key, new, round),
              sym is ∙ shape ∙ append_one path e.to xs,
              subst (Counts agents) is counts,
            )
      ]
    ]

    -- A round begins with the first of the edges, or with another.
    Through-cases :
        (e : Edge) (es : List Edge) (xs : List String)
        → Through (e ∷ es) visited xs
        → Through es visited xs
          ⊎ ((xs ≡ []) × (e.to ≡ src))
          ⊎ ((ys : List String) × (xs ≡ e.to ∷ ys) × Open e × Round g src e.to (e.to ∷ visited) ys)
    Through-cases e es [] (d, at, is) = elim (Memᴰ.cases_cons at) [
      | inl same ↦ inr (inl (refl, subst (λ (x : Edge). x.to ≡ src) same is))
      | inr there ↦ inl (d, there, is)
    ]
    Through-cases e es (x ∷ xs) ((d, at, is), key, new, round) = elim (Memᴰ.cases_cons at) [
      | inr there ↦ inl ((d, there, is), key, new, round)
      | inl same ↦
          let to : x ≡ e.to = sym is ∙ ap (λ (y : Edge). y.to) same in
          inr (
            inr (
              xs,
              ap (λ y. y ∷ xs) to,
              (
                subst (λ y. contains visited y ≡ false) to new,
                subst (λ y. Memᴰ y (keys g.nodes)) to key,
              ),
              subst (λ y. Round g src y (y ∷ visited) xs) to round,
            ))
    ]

    scan_complete :
        (es : List Edge) (xs : List String)
        → length xs ≤ depth
        → go es ≡ none
        → Through es visited xs
        → ¬ Counts agents (path ++ xs)
    scan_complete [] [] fits h t counts = Memᴰ.not-nil t.1
    scan_complete [] (x ∷ xs) fits h t counts = Memᴰ.not-nil t.0.1
    scan_complete (e ∷ es) xs fits h t counts = elim (scan-cases e es) [
      | inl (_, found) ↦ cc (found, h)
      | inr (inl (no_cycle, blocked, on)) ↦ elim (Through-cases e es xs t) [
        | inl there ↦ scan_complete es xs fits (sym on ∙ h) there counts
        | inr (inl (empty, same)) ↦
            no_cycle
              (same, subst (Counts agents) (ap (λ ys. path ++ ys) empty ∙ append_nil path) counts)
        | inr (inr (ys, _, (new, key), _)) ↦ elim blocked [
          | inl seen ↦ cc (seen, new)
          | inr gone ↦ gone key
        ]
      ]
      | inr (inr ((new, key), on)) ↦ elim (Option-cases (below e)) [
        | inr (q, found) ↦ cc (ap (λ o. or_found o (go es)) (sym found) ∙ sym on ∙ h)
        | inl none_below ↦
            let rest : go es ≡ none = ap (λ o. or_found o (go es)) (sym none_below) ∙ sym on ∙ h in
            elim (Through-cases e es xs t) [
              | inl there ↦ scan_complete es xs fits rest there counts
              | inr (inl (_, same)) ↦ cc (subst (λ x. contains visited x ≡ false) same new, has_src)
              | inr (inr (ys, shape, _, round)) ↦
                  good.complete e.to (path ++ e.to ∷ []) (e.to ∷ visited) ys (still e.to)
                    (omega (arith, fits, ap length shape)) none_below round
                    (subst (Counts agents)
                      (ap (λ zs. path ++ zs) shape ∙ sym (append_one path e.to ys)) counts)
            ]
      ]
    ]

  out_edge : (u x : String) → ((e : Edge) × Memᴰ e (outgoing_edges g u) × (e.to ≡ x)) ↔ Goes g u x
  unfolding outgoing_edges
  out_edge u x = (
    λ (e, at, to).
        let (there, from) = (Memᴰ-select e (λ d. d.from == u) g.edges).0 at in
        (e, there, (eq_iff e.from u).0 from, to),
    λ (e, there, from, to).
        (e, (Memᴰ-select e (λ d. d.from == u) g.edges).1 (there, (eq_iff e.from u).1 from), to),
  )

  Through-Round :
      (u : String) (visited xs : List String)
      → Through (outgoing_edges g u) visited xs ↔ Round g src u visited xs
  Through-Round u visited [] = out_edge u src
  Through-Round u visited (x ∷ xs) = (
    λ (step, key, new, round). ((out_edge u x).0 step, key, new, round),
    λ (step, key, new, round). ((out_edge u x).1 step, key, new, round),
  )

  pub dfs-IsSearch : (depth : ℕ) → IsSearch depth (dfs depth g agents src)
  unfolding dfs
  dfs-IsSearch zero = record {
    sound = λ u path visited p here h. cc h;
    complete = λ u path visited xs here fits. absurd (omega (arith, fits));
  }
  dfs-IsSearch (suc depth) =
      let good = dfs-IsSearch depth in
      record {
        sound = λ u path visited p here h.
            let (xs, t, shape, counts) =
              scan_sound depth (dfs depth g agents src) good path visited here (outgoing_edges g u)
                p h in
            (xs, (Through-Round u visited xs).0 t, shape, counts);
        complete = λ u path visited xs here fits h round.
            scan_complete depth (dfs depth g agents src) good path visited here (outgoing_edges g u)
              xs (omega (arith, fits)) h ((Through-Round u visited xs).1 round);
      }
