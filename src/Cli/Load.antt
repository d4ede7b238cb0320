-- ===== src/Cli/Load.antt =====
-- cli/analyze.go: the graphs of an input. The file system and the parser are what a record answers.
use Prim.Native.String.{◌++◌ as ◌+++◌}
use shingan.Prelude.{
  String, Bool, true, false, not, ◌&&◌, ◌||◌, ◌==◌, Option, none, some, List, [], ◌∷◌, map, any,
  select, contains, length, leb, map_option, if◌then◌else◌,
}
use shingan.Prelude.Text.{codes}
use shingan.Prelude.Words.{has_suffix}
use shingan.Domain.Graph.{WorkflowGraph}
use shingan.Application.Multi.{GraphWithSource}
use shingan.Cli.Format.{Sniffed, Entry, vendored_dirs, detect_format_file}

-- What a parser makes of a file.
pub data Parsed : Type 0 where
  graph : WorkflowGraph → Parsed
  framework_missing unreadable : Parsed

pub record Files : Type 0 where
  -- os.Stat: whether the path is a directory.
  pub stat : String → Option Bool
  pub walk : String → Option (List Entry)
  pub clean : String → String
  pub parse : String → Parsed
  -- ParseFilesMulti, of the parsers that have it.
  pub parse_many : Option (List String → Option (List (String × Parsed)))

abbrev pub lang_graph_js_exts : List String
lang_graph_js_exts = ".ts" ∷ ".tsx" ∷ ".mts" ∷ ".cts" ∷ ".js" ∷ ".jsx" ∷ ".mjs" ∷ ".cjs" ∷ []

abbrev python_formats : List String
python_formats = "langgraph" ∷ "crewai" ∷ "pydantic-graph" ∷ "llamaindex" ∷ "autogen" ∷ []

abbrev script_formats : List String
script_formats = "langgraph-js" ∷ "mastra" ∷ "openai-agents" ∷ []

-- The switch over the format of a directory: the extensions, and `none` for an error.
unfoldable pub exts_of : String → Option (List String)
unfolding contains
exts_of format =
    if format == "adk-go"
    then some (".go" ∷ [])
    else if contains python_formats format
    then some (".py" ∷ [])
    else if contains script_formats format
    then some lang_graph_js_exts
    else if format == "n8n"
    then some (".json" ∷ [])
    else none

-- The function keep, which only n8n sets.
abbrev keeps : String → Sniffed → Bool
keeps format file = not (format == "n8n") || detect_format_file file == "n8n"

module _ (fs : Files) where
  unfoldable pub file_in_allowlist : String → List String → Bool
  unfolding any has_suffix codes
  file_in_allowlist path allow =
      let clean = fs.clean path in
      any (λ a. a == clean || has_suffix (codes clean) (codes ("/" +++ a))) allow

  -- Without an allowlist every path is allowed.
  abbrev allowed : Option (List String) → String → Bool
  allowed none path = true
  allowed (some allow) path = file_in_allowlist path allow

  -- The tests of the walk's function, on a file.
  unfoldable pub is_source : String → Option (List String) → List String → Entry → Bool
  unfolding any contains file_in_allowlist detect_format_file
  is_source format allow exts e =
      not (any (contains vendored_dirs) e.dirs)
      && contains exts e.sniffed.ext
      && allowed allow e.path
      && keeps format e.sniffed

  -- The loop over the results: a missing framework is an error, other failures are left out.
  unfoldable pub collect_parsed : List (String × Parsed) → Option (List GraphWithSource)
  collect_parsed [] = some []
  collect_parsed ((path, p) ∷ rest) =
      let later = collect_parsed rest in
      elim p [
        | graph g ↦ map_option (λ gs. record { graph = some g; source_file = path } ∷ gs) later
        | framework_missing ↦ none
        | unreadable ↦ later
      ]

  abbrev one_by_one : List String → List (String × Parsed)
  one_by_one = map (λ path. (path, fs.parse path))

  -- From the collected paths on.
  unfoldable pub parse_paths : List String → Option (List GraphWithSource)
  unfolding collect_parsed
  parse_paths paths = elim fs.parse_many [
    | none ↦ collect_parsed (one_by_one paths)
    | some many ↦
        if leb 2 (length paths)
        then elim (many paths) [ none ↦ none | some results ↦ collect_parsed results ]
        else collect_parsed (one_by_one paths)
  ]

  unfoldable pub parse_source_directory_as_multi :
      String → String → Option (List String) → List String → Option (List GraphWithSource)
  unfolding parse_paths is_source select
  parse_source_directory_as_multi dir format allow exts = elim (fs.walk dir) [
    | none ↦ none
    | some entries ↦
        parse_paths (map (λ (e : Entry). e.path) (select (is_source format allow exts) entries))
  ]

  abbrev single : String → Parsed → Option (List GraphWithSource)
  single path (graph g) = some (record { graph = some g; source_file = path } ∷ [])
  single path _ = none

  unfoldable pub load_as_multi :
      String → String → Option (List String) → Option (List GraphWithSource)
  unfolding exts_of parse_source_directory_as_multi file_in_allowlist
  load_as_multi path format allow = elim (fs.stat path) [
    | none ↦ none
    | some false ↦ if allowed allow path then single path (fs.parse path) else some []
    | some true ↦ elim (exts_of format) [
      | none ↦ none
      | some exts ↦ parse_source_directory_as_multi path format allow exts
    ]
  ]
