-- ===== src/Application/Ignore.antt =====
-- application/ignore.go: the `shingan: ignore` comments of a file, and the findings that they
-- suppress. The regular expression of a marker and the reading of a file are parameters.
pub mod RuleList
pub mod Laws
mod Tests
use shingan.Prelude.{
  ℕ, suc, ◌+◌, String, Bool, true, false, not, ◌&&◌, ◌||◌, ◌==◌, Option, none, some, List, [], ◌∷◌,
  foldl, Dict, insert, lookup, get_or, nat_eq, if◌then◌else◌,
}
use shingan.Domain.Finding.{Finding}
use shingan.Application.Ignore.RuleList.{parse_rule_list}

-- A map from line numbers, the latest entry of a line first.
abbrev pub LineMap : Type 0
LineMap = List (ℕ × Dict Bool)

unfoldable pub get_line : ℕ → LineMap → Dict Bool
get_line n [] = []
get_line n ((k, m) ∷ rest) = if nat_eq k n then m else get_line n rest

pub record IgnoreIndex : Type 0 where
  pub file_level : Dict Bool
  pub per_line : LineMap

-- The rule is in the set, or all rules are.
unfoldable pub has : Dict Bool → String → Bool
has m rule = get_or "*" false m || get_or rule false m

unfoldable pub suppressed : Option IgnoreIndex → String → ℕ → Bool
unfolding get_line has
suppressed none rule line = false
suppressed (some idx) rule line =
    if has idx.file_level rule
    then true
    else if nat_eq line 0
    then false
    else has (get_line line idx.per_line) rule

unfoldable pub add_all : List String → Dict Bool → Dict Bool
add_all rules m = foldl (λ m r. insert r true m) m rules

abbrev pub empty_index : IgnoreIndex
empty_index = record { file_level = []; per_line = [] }

-- What a line with a marker adds, given its number and the groups 1 and 2 of `ignoreMarkerRe`.
unfoldable pub read_marker : ℕ → Option (String × String) → IgnoreIndex → IgnoreIndex
unfolding add_all get_line
read_marker n none idx = idx
read_marker n (some (scope, raw)) idx =
    let rules = parse_rule_list raw in
    if scope == "file"
    then record idx { file_level = add_all rules idx.file_level }
    else if scope == "next-line"
    then record idx {
      per_line = (n + 1, add_all rules (get_line (n + 1) idx.per_line)) ∷ idx.per_line;
    }
    else record idx { per_line = (n, add_all rules (get_line n idx.per_line)) ∷ idx.per_line }

-- The groups in a line, if `ignoreMarkerRe` matches.
module _ (marker : String → Option (String × String)) where
  unfoldable pub read_lines : ℕ → List String → IgnoreIndex → IgnoreIndex
  unfolding read_marker
  read_lines n [] idx = idx
  read_lines n (text ∷ rest) idx = read_lines (suc n) rest (read_marker n (marker text) idx)

  -- The lines that the scanner yields of a file, if it can be opened.
  module _ (open_lines : String → Option (List String)) where
    unfoldable pub load_ignore_index : String → IgnoreIndex
    unfolding read_lines
    load_ignore_index path = if path == "" then empty_index else elim (open_lines path) [
      | some lines ↦ read_lines 1 lines empty_index
      | none ↦ empty_index
    ]

    module _ (resolve : String → String → String × ℕ) where
      abbrev pub file_path : Finding → String
      file_path f =
          let (path, line) = resolve f.source_file f.node_id in
          if path == "" then f.source_file else path

      -- The index of a file, loaded once.
      unfoldable pub cached : Dict IgnoreIndex → String → IgnoreIndex × Dict IgnoreIndex
      unfolding load_ignore_index
      cached cache path = elim (lookup path cache) [
        | some idx ↦ (idx, cache)
        | none ↦ (load_ignore_index path, insert path (load_ignore_index path) cache)
      ]

      -- Whether a finding stays, and the cache after it.
      unfoldable pub keeps : Dict IgnoreIndex → Finding → Bool × Dict IgnoreIndex
      unfolding cached suppressed
      keeps cache f =
          if file_path f == ""
          then (true, cache)
          else let (idx, after) = cached cache (file_path f) in
            (not (suppressed (some idx) f.rule_name (resolve f.source_file f.node_id).1), after)

      unfoldable pub filter_from : Dict IgnoreIndex → List Finding → List Finding
      unfolding keeps
      filter_from cache [] = []
      filter_from cache (f ∷ fs) =
          let rest = filter_from (keeps cache f).1 fs in
          if (keeps cache f).0 then f ∷ rest else rest

      unfoldable pub filter_ignored_findings : List Finding → List Finding
      unfolding filter_from
      filter_ignored_findings findings = filter_from [] findings
