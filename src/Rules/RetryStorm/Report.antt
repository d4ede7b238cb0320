-- ===== src/Rules/RetryStorm/Report.antt =====
-- Which tools are reported, while the product of retries and parallelism fits in an int, and beyond.
use shingan.Prelude.{
  ℕ, zero, suc, ◌-◌, ◌*◌, ◌%◌, ◌^◌, ◌≤◌, ◌<◌, String, true, false, ◌≡◌, refl, sym, ap, subst, ◌↔◌,
  inl, inr, Option, none, some, List, Memᴰ, collect, values, is_empty, ltb, arith, Bool-cases,
  some_inj, is_some_iff, select_of_empty, map_option_iff, Memᴰ-select, Memᴰ-collect,
}
use shingan.Prelude.Int.{pos, negsuc, neg_ℕ}
use shingan.Domain.NodeType.{tool}
use shingan.Domain.NodeType.Laws.{is_tool_iff}
use shingan.Domain.Finding.{Finding}
use shingan.Domain.Graph.{Node, WorkflowGraph}
use shingan.Rules.RetryStorm.{
  Grade, is_source, sources, retry_count, estimate_parallelism, mul_int, grade, storm_finding,
  blast_finding, check_source, run_retry_storm_checks, analyze,
}
use shingan.Rules.RetryStorm.Spec.{IsStorm}
use shingan.Rules.RetryStorm.Counts.{retry_count_iff, grade_iff}

neg_ℕ-suc : (n : ℕ) → 1 ≤ n → neg_ℕ n ≡ negsuc (n - 1)
neg_ℕ-suc zero h = absurd (omega (arith, h))
neg_ℕ-suc (suc n) h = let same : n ≡ suc n - 1 = omega arith in ap negsuc same

ltb-false : (a b : ℕ) → b ≤ a → ltb a b ≡ false
ltb-false a b h = ground (arith, h)

mul_int-exact : (a b : ℕ) → a * b < 2 ^ 63 → mul_int a b ≡ pos (a * b)
unfolding mul_int
mul_int-exact a b small =
    let same : (a * b) % 2 ^ 64 ≡ a * b = omega (arith, small) in rw same (ground (arith, small))

-- A product that no longer fits turns negative, up to twice the range.
mul_int-negative : (a b : ℕ) → 2 ^ 63 ≤ a * b → a * b < 2 ^ 64 → (n : ℕ) × (mul_int a b ≡ negsuc n)
unfolding mul_int
mul_int-negative a b big small =
    let same : (a * b) % 2 ^ 64 ≡ a * b = omega (arith, small) in
    (
      2 ^ 64 - a * b - 1,
      rw same
          (rw (ltb-false (a * b) (2 ^ 63) big) (neg_ℕ-suc (2 ^ 64 - a * b) (omega (arith, small)))),
    )

module _ (id : String) (par : ℕ) (f : Finding) where
  abbrev IsBlast : Option (ℕ × String) → Type 0
  IsBlast o =
      (retries : ℕ) × (key : String) × (how : Grade) × (o ≡ some (retries, key))
      × (grade (pos (retries * par)) ≡ some how)
      × (f ≡ storm_finding id key retries par (pos (retries * par)) how)

  blast_finding_iff :
      (o : Option (ℕ × String))
      → ((retries : ℕ) (key : String) → o ≡ some (retries, key) → retries * par < 2 ^ 63)
      → (blast_finding id par o ≡ some f) ↔ IsBlast o
  unfolding blast_finding
  blast_finding_iff none small = (λ e. cc e, λ h. cc h.3)
  blast_finding_iff (some (retries, key)) small =
      let exact = mul_int-exact retries par (small retries key refl) in
      let found =
        map_option_iff (storm_finding id key retries par (pos (retries * par)))
          (grade (pos (retries * par))) f in
      rw exact (
        λ h. let (how, e, q) = found.0 h in (retries, key, how, refl, e, q),
        λ (r, k, how, e, h, q). found.1 (
          how,
          subst (λ (x : ℕ × String). grade (pos (x.0 * par)) ≡ some how) (sym (some_inj e)) h,
          subst (λ (x : ℕ × String). f ≡ storm_finding id x.1 x.0 par (pos (x.0 * par)) how)
              (sym (some_inj e)) q,
        ),
      )

is_source_iff :
    (n : Node)
    → (is_source n ≡ true) ↔ ((n.type ≡ tool) × ((r : ℕ × String) × (retry_count n ≡ some r)))
unfolding is_source
is_source_iff n = ground (arith, is_tool_iff n.type, is_some_iff (retry_count n))

-- A product of retries and parallelism that an int holds.
abbrev pub Fits : WorkflowGraph → Node → Type 0
Fits g n =
    (retries : ℕ) (key : String)
    → retry_count n ≡ some (retries, key)
    → retries * estimate_parallelism g n < 2 ^ 63

module _ (g : WorkflowGraph) (f : Finding) where
  run_iff :
      (nodes : List Node)
      → ((n : Node) → Memᴰ n nodes → Fits g n)
      → Memᴰ f (run_retry_storm_checks g nodes)
        ↔ ((n : Node) × Memᴰ n nodes × IsBlast n.id (estimate_parallelism g n) f (retry_count n))
  unfolding run_retry_storm_checks check_source
  run_iff nodes small =
      let found = Memᴰ-collect f (check_source g) nodes in
      let blast =
        λ (n : Node). blast_finding_iff n.id (estimate_parallelism g n) f (retry_count n) in
      (
        λ m. let (n, at, h) = found.0 m in (n, at, (blast n (small n at)).0 h),
        λ (n, at, h). found.1 (n, at, (blast n (small n at)).1 h),
      )

  sources_iff :
      (n : Node)
      → Memᴰ n (sources g) ↔ (
          Memᴰ n (values g.nodes) × (n.type ≡ tool) × ((r : ℕ × String) × (retry_count n ≡ some r)))
  unfolding sources
  sources_iff n = ground (arith, Memᴰ-select n is_source (values g.nodes), is_source_iff n)

analyze_some : (g : WorkflowGraph) → analyze (some g) ≡ run_retry_storm_checks g (sources g)
unfolding analyze run_retry_storm_checks sources collect
analyze_some g = elim (Bool-cases (is_empty g.nodes)) [
  | inl t ↦ rw (t, select_of_empty is_source g.nodes t) refl
  | inr f ↦ rw f refl
]

-- While the product of retries and parallelism of each tool fits in an int, a finding is reported
-- exactly if it is that of a tool of the graph, with the first of the keys retries, max_retries and
-- retry_count that is 3 or more, and with the grade of the product: critical from 100, warning from 30,
-- info from 10.
pub analyze-IsStorm :
    (g : WorkflowGraph) (f : Finding)
    → ((n : Node) → Memᴰ n (values g.nodes) → Fits g n)
    → Memᴰ f (analyze (some g)) ↔ ((n : Node) × IsStorm g f n)
analyze-IsStorm g f small =
    let run = run_iff g f (sources g) (λ n at. small n ((sources_iff g f n).0 at).0) in
    rw (analyze_some g) (
      λ m.
          let (n, at, (r, key, how, counted, graded, e)) = run.0 m in
          let (listed, kind, _) = (sources_iff g f n).0 at in
          (
            n,
            record {
              listed = listed;
              is_tool = kind;
              retries = r;
              key = key;
              how = how;
              counted = (retry_count_iff n r key).0 counted;
              graded = (grade_iff (r * estimate_parallelism g n) how).0 graded;
              finding = e;
            },
          ),
      λ (n, s).
          let counted = (retry_count_iff n s.retries s.key).1 s.counted in
          let graded = (grade_iff (s.retries * estimate_parallelism g n) s.how).1 s.graded in
          let at = (sources_iff g f n).1 (s.listed, s.is_tool, ((s.retries, s.key), counted)) in
          run.1 (n, at, (s.retries, s.key, s.how, counted, graded, s.finding)),
    )

-- A tool whose product of retries and parallelism is at least 2^63 and less than 2^64 is not
-- reported: the product is negative as an int.
pub check_source-none :
    (g : WorkflowGraph) (n : Node) (retries : ℕ) (key : String)
    → retry_count n ≡ some (retries, key)
    → 2 ^ 63 ≤ retries * estimate_parallelism g n
    → retries * estimate_parallelism g n < 2 ^ 64
    → check_source g n ≡ none
unfolding check_source blast_finding grade
check_source-none g n retries key counted big small =
    let (k, negative) = mul_int-negative retries (estimate_parallelism g n) big small in
    rw (counted, negative) refl
