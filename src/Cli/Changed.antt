-- ===== src/Cli/Changed.antt =====
-- cli/analyze.go: the files that changed since a revision. Of git and filepath what they answer is a
-- parameter.
use Prim.Native.String.{◌++◌ as ◌+++◌}
use Prim.Native.Char.{Char, code}
use shingan.Prelude.{
  String, Bool, ◌||◌, ◌==◌, Option, none, some, List, collect, starts_with, nat_eq, if◌then◌else◌,
}
use shingan.Application.Ignore.RuleList.{trim, is_space, trim_left, trim_right, fields}

-- git and path/filepath; `none` is an error.
pub record Paths : Type 0 where
  pub top_level : Option String
  pub diff_names : String → Option String
  pub clean : String → String
  pub is_abs : String → Bool
  pub abs : String → Option String
  pub rel : String → String → Option String

abbrev pub separator : String
separator = "/"

-- A relative path that leaves the directory.
abbrev pub is_outside : String → Bool
is_outside rel = starts_with rel (".." +++ separator) || rel == ".."

module _ (p : Paths) where
  -- normaliseToRepoRelative, from a path that is absolute.
  abbrev relative_to : String → String → String → String
  relative_to root clean absolute = elim (p.rel root absolute) [
    | none ↦ clean
    | some rel ↦ if is_outside rel then clean else p.clean rel
  ]

  unfoldable pub normalise_to_repo_relative : String → String → String
  normalise_to_repo_relative path root =
      let clean = p.clean path in
      if root == ""
      then clean
      else if p.is_abs clean
      then relative_to root clean clean
      else elim (p.abs clean) [ none ↦ clean | some absolute ↦ relative_to root clean absolute ]

  unfoldable pub repo_relative_prefix : String → String → Option String
  repo_relative_prefix input root = elim (p.abs input) [
    | none ↦ none
    | some absolute ↦ elim (p.rel root absolute) [
      | none ↦ none
      | some rel ↦ if is_outside rel then none else some (p.clean rel)
    ]
  ]

  abbrev is_newline : Char → Bool
  is_newline c = nat_eq (code c) 10

  -- The body of the loop over the lines.
  unfoldable pub changed_path : String → String → Option String
  unfolding is_space trim_left trim_right
  changed_path prefix line =
      let f = trim is_space line in
      let clean = p.clean f in
      if f == ""
      then none
      else if clean == prefix || starts_with clean (prefix +++ separator)
      then some clean
      else none

  -- changedFiles. Empty lines, which `fields` drops, are skipped.
  unfoldable pub changed_files : String → String → Option (List String)
  unfolding repo_relative_prefix changed_path fields collect is_space trim_left trim_right
  changed_files since input = if starts_with since "-" then none else elim p.top_level [
    | none ↦ none
    | some root ↦ elim (repo_relative_prefix input root) [
      | none ↦ none
      | some prefix ↦ elim (p.diff_names since) [
        | none ↦ none
        | some out ↦ some (collect (changed_path prefix) (fields is_newline (trim is_space out)))
      ]
    ]
  ]
