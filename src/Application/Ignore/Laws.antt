-- ===== src/Application/Ignore/Laws.antt =====
-- What an ignore index suppresses, and what the filter with its cache keeps.
use shingan.Prelude.{
  ℕ, suc, ◌+◌, String, Bool, true, false, not, ◌&&◌, ◌||◌, ◌==◌, eq_iff, ◌≡◌, refl, ap, sym, ◌∙◌,
  Option, none, some, Option-cases, inl, inr, List, [], ◌∷◌, Dict, insert, lookup, lookup-insert,
  get_or, contains, select, nat_eq, arith, if◌then◌else◌, Bool-cases,
}
use shingan.Domain.Finding.{Finding}
use shingan.Application.Ignore.{
  IgnoreIndex, LineMap, get_line, has, suppressed, add_all, empty_index, read_marker, read_lines,
  load_ignore_index, file_path, cached, keeps, filter_from, filter_ignored_findings,
}
use shingan.Application.Ignore.RuleList.{parse_rule_list}

get_or-add_all :
    (r : String) (rules : List String) (m : Dict Bool)
    → get_or r false (add_all rules m) ≡ (get_or r false m || contains rules r)
unfolding add_all contains
get_or-add_all r [] m = ground arith
get_or-add_all r (x ∷ rules) m = ground (
  arith,
  get_or-add_all r rules (insert x true m),
  lookup-insert x r true m,
  eq_iff x r,
  eq_iff r x,
)

-- Whether a list of rule names covers a rule.
abbrev pub names : List String → String → Bool
names rules rule = contains rules "*" || contains rules rule

has-add_all :
    (rule : String) (rules : List String) (m : Dict Bool)
    → has (add_all rules m) rule ≡ (has m rule || names rules rule)
unfolding has
has-add_all rule rules m = ground (arith, get_or-add_all "*" rules m, get_or-add_all rule rules m)

and_true : (b : Bool) → (b && true) ≡ b
and_true true = refl
and_true false = refl

-- An entry for a line and a set of rules counts at that line only.
has-line :
    (rule : String) (line k : ℕ) (m : Dict Bool) (old : LineMap) (named : Bool)
    → has m rule ≡ (has (get_line k old) rule || named)
    → has (get_line line ((k, m) ∷ old)) rule
      ≡ (has (get_line line old) rule || named && nat_eq line k)
unfolding get_line
has-line rule line k m old named h = elim (Bool-cases (nat_eq k line)) [
  | inl t ↦ let e : k ≡ line = ground (arith, t) in rw (sym e) (ground (arith, h))
  | inr f ↦ ground (arith, f)
]

suppressed-line :
    (rule : String) (line k : ℕ) (m : Dict Bool) (idx : IgnoreIndex) (named : Bool)
    → has m rule ≡ (has (get_line k idx.per_line) rule || named)
    → suppressed (some (record idx { per_line = (k, m) ∷ idx.per_line })) rule line
      ≡ (suppressed (some idx) rule line || named && (not (nat_eq line 0) && nat_eq line k))
unfolding suppressed
suppressed-line rule line k m idx named h =
    ground (arith, has-line rule line k m idx.per_line named h)

suppressed-file :
    (rule : String) (line : ℕ) (m : Dict Bool) (idx : IgnoreIndex) (named : Bool)
    → has m rule ≡ (has idx.file_level rule || named)
    → suppressed (some (record idx { file_level = m })) rule line
      ≡ (suppressed (some idx) rule line || named)
unfolding suppressed
suppressed-file rule line m idx named h = ground (arith, h)

-- Whether the marker of a line, with the number of the line, suppresses a rule at a line.
unfoldable pub marks : String → ℕ → ℕ → Option (String × String) → Bool
marks rule line n none = false
marks rule line n (some (scope, raw)) =
    names (parse_rule_list raw) rule
    && (scope == "file"
        || not (nat_eq line 0) && nat_eq line (if scope == "next-line" then n + 1 else n))

read_marker-suppressed :
    (rule : String) (line n : ℕ) (m : Option (String × String)) (idx : IgnoreIndex)
    → suppressed (some (read_marker n m idx)) rule line
      ≡ (suppressed (some idx) rule line || marks rule line n m)
unfolding read_marker marks
read_marker-suppressed rule line n none idx = ground arith
read_marker-suppressed rule line n (some (scope, raw)) idx =
    let rules = parse_rule_list raw in
    let named = names rules rule in
    elim (Bool-cases (scope == "file")) [
      | inl t ↦ rw t (
          suppressed-file rule line _ idx named (has-add_all rule rules idx.file_level)
          ∙ ap (λ b. suppressed (some idx) rule line || b) (sym (and_true named)))
      | inr f ↦ rw f (elim (Bool-cases (scope == "next-line")) [
        | inl u ↦ rw u (
            suppressed-line rule line (n + 1) _ idx named
              (has-add_all rule rules (get_line (n + 1) idx.per_line)))
        | inr v ↦ rw v (
            suppressed-line rule line n _ idx named
              (has-add_all rule rules (get_line n idx.per_line)))
      ])
    ]

module _ (marker : String → Option (String × String)) where
  -- Whether some line, the first of them with this number, has a marker for a rule at a line.
  unfoldable pub marked : String → ℕ → ℕ → List String → Bool
  unfolding marks
  marked rule line n [] = false
  marked rule line n (text ∷ rest) =
      marks rule line n (marker text) || marked rule line (suc n) rest

  read_lines-suppressed :
      (rule : String) (line n : ℕ) (lines : List String) (idx : IgnoreIndex)
      → suppressed (some (read_lines marker n lines idx)) rule line
        ≡ (suppressed (some idx) rule line || marked rule line n lines)
  unfolding read_lines marked
  read_lines-suppressed rule line n [] idx = ground arith
  read_lines-suppressed rule line n (text ∷ rest) idx = ground (
    arith,
    read_lines-suppressed rule line (suc n) rest (read_marker n (marker text) idx),
    read_marker-suppressed rule line n (marker text) idx,
  )

  -- The index of a file suppresses a rule at a line exactly if some line of the file has a marker
  -- that names the rule, or all rules, and whose scope is the file, the next line where that is the
  -- line in question, or else its own line where it is that line. At line 0, which stands for no
  -- position, only markers for the file count.
  pub suppressed-eq-marked :
      (rule : String) (line : ℕ) (lines : List String)
      → suppressed (some (read_lines marker 1 lines empty_index)) rule line
        ≡ marked rule line 1 lines
  unfolding suppressed get_line lookup
  suppressed-eq-marked rule line lines =
      ground (arith, read_lines-suppressed rule line 1 lines empty_index)

  module _ (open_lines : String → Option (List String))
      (resolve : String → String → String × ℕ) where
    -- Whether the index of its file suppresses a finding.
    abbrev pub is_ignored : Finding → Bool
    is_ignored f =
        not (file_path marker open_lines resolve f == "")
        && suppressed
            (some (load_ignore_index marker open_lines (file_path marker open_lines resolve f)))
            f.rule_name (resolve f.source_file f.node_id).1

    -- Every entry of the cache is the index of its file.
    IsCurrent : Dict IgnoreIndex → Type 0
    IsCurrent cache =
        (path : String) (idx : IgnoreIndex)
        → lookup path cache ≡ some idx
        → idx ≡ load_ignore_index marker open_lines path

    cached-IsCurrent :
        (cache : Dict IgnoreIndex) (path : String)
        → IsCurrent cache
        → ((cached marker open_lines resolve cache path).0
            ≡ load_ignore_index marker open_lines path)
          × IsCurrent (cached marker open_lines resolve cache path).1
    unfolding IsCurrent cached
    cached-IsCurrent cache path h = elim (Option-cases (lookup path cache)) [
      | inr (idx, e) ↦ rw (e, cached) (h path idx e, h)
      | inl e ↦
          rw (e, cached)
            (
              refl,
              λ other idx k.
                  let there =
                    lookup-insert path other (load_ignore_index marker open_lines path) cache in
                  ground (arith, there, k, h other idx, eq_iff path other),
            )
    ]

    abbrev guard : Bool → Bool → Dict IgnoreIndex → Dict IgnoreIndex → Bool × Dict IgnoreIndex
    guard skip hidden cache after = if skip then (true, cache) else (not hidden, after)

    guarded :
        (skip hidden : Bool) (cache after : Dict IgnoreIndex)
        → IsCurrent cache
        → IsCurrent after
        → ((guard skip hidden cache after).0 ≡ not (not skip && hidden))
          × IsCurrent (guard skip hidden cache after).1
    guarded true hidden cache after h k = (refl, h)
    guarded false hidden cache after h k = (refl, k)

    keeps-IsCurrent :
        (cache : Dict IgnoreIndex) (f : Finding)
        → IsCurrent cache
        → ((keeps marker open_lines resolve cache f).0 ≡ not (is_ignored f))
          × IsCurrent (keeps marker open_lines resolve cache f).1
    unfolding keeps
    keeps-IsCurrent cache f h =
        let path = file_path marker open_lines resolve f in
        let hides = λ (idx : IgnoreIndex).
          suppressed (some idx) f.rule_name (resolve f.source_file f.node_id).1 in
        let (same, current) = cached-IsCurrent cache path h in
        let (e, c) =
          guarded (path == "") (hides (cached marker open_lines resolve cache path).0) cache
            (cached marker open_lines resolve cache path).1 h current in
        (e ∙ ap (λ idx. not (not (path == "") && hides idx)) same, c)

    filter_from-current :
        (cache : Dict IgnoreIndex) (fs : List Finding)
        → IsCurrent cache
        → filter_from marker open_lines resolve cache fs ≡ select (λ f. not (is_ignored f)) fs
    unfolding filter_from select
    filter_from-current cache [] h = refl
    filter_from-current cache (f ∷ fs) h =
        let (e, current) = keeps-IsCurrent cache f h in
        let rest = filter_from-current (keeps marker open_lines resolve cache f).1 fs current in
        ground (arith, e, rest)

    -- The filter keeps, in order, the findings that the index of their file does not suppress, the
    -- index read anew for each: the cache changes nothing.
    pub filter-eq-select :
        (fs : List Finding)
        → filter_ignored_findings marker open_lines resolve fs ≡ select (λ f. not (is_ignored f)) fs
    unfolding filter_ignored_findings IsCurrent lookup
    filter-eq-select fs = filter_from-current [] fs (λ path idx h. cc)
