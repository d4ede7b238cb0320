-- ===== src/Cli/Format.antt =====
-- cli/detect.go and cli/defaults.go: the format of an input, and that of the report.
pub mod Laws
use shingan.Prelude.{
  ℕ, ◌+◌, String, Bool, true, false, ◌&&◌, ◌||◌, ◌==◌, Option, none, some, List, [], ◌∷◌, foldl,
  Dict, insert, lookup, get_or, contains, any, not, map, select, ltb, nat_eq, if◌then◌else◌,
}
use shingan.Prelude.Text.{codes, str_ltb}
use shingan.Prelude.Words.{to_lower, has_word, same_codes}
use shingan.Infrastructure.N8n.Kind.{contains_any, ends_with_any}

-- A file's extension, and the head of its content.
pub record Sniffed : Type 0 where
  pub ext : String
  pub head : String

unfoldable pub detect_python : List ℕ → String
unfolding contains_any
detect_python body =
    if contains_any body ("pydantic_graph" ∷ [])
    then "pydantic-graph"
    else if contains_any body ("crewai" ∷ [])
    then "crewai"
    else if contains_any body ("llama_index" ∷ "llamaindex" ∷ "llama-index" ∷ [])
    then "llamaindex"
    else if contains_any body ("autogen" ∷ [])
    then "autogen"
    else if contains_any body ("langgraph" ∷ "stategraph" ∷ [])
    then "langgraph"
    else ""

unfoldable pub detect_type_script : List ℕ → String
unfolding contains_any
detect_type_script body =
    if contains_any body ("@mastra" ∷ [])
    then "mastra"
    else if contains_any body ("@openai/agents" ∷ [])
    then "openai-agents"
    else if contains_any body ("@langchain/langgraph" ∷ "stategraph" ∷ [])
    then "langgraph-js"
    else ""

unfoldable pub detect_go : List ℕ → String
unfolding contains_any
detect_go body =
    if contains_any body ("google.golang.org/adk" ∷ "loopagent" ∷ "sequentialagent" ∷ "adk." ∷ [])
    then "adk-go"
    else ""

unfoldable pub detect_json : List ℕ → String
unfolding contains_any
detect_json body =
    if contains_any body ("n8n-nodes-" ∷ "@n8n/" ∷ [])
    then "n8n"
    else if contains_any body ("\"nodes\"" ∷ []) && contains_any body ("\"connections\"" ∷ [])
    then "n8n"
    else "json"

abbrev pub script_exts : List String
script_exts = ".ts" ∷ ".mts" ∷ ".cts" ∷ ".tsx" ∷ ".js" ∷ ".mjs" ∷ ".cjs" ∷ ".jsx" ∷ []

abbrev is_ext : List String → List ℕ → Bool
is_ext [] ext = false
is_ext (e ∷ es) ext = same_codes ext (codes e) || is_ext es ext

unfoldable pub detect_format_file : Sniffed → String
unfolding detect_python detect_type_script detect_go detect_json to_lower codes same_codes
detect_format_file file =
    let body = to_lower file.head in
    let ext = to_lower file.ext in
    if is_ext (".py" ∷ []) ext
    then detect_python body
    else if is_ext script_exts ext
    then detect_type_script body
    else if is_ext (".go" ∷ []) ext
    then detect_go body
    else if is_ext (".json" ∷ []) ext
    then detect_json body
    else ""

-- The end of the walk's function, on a file that is not left out: counts[f]++.
unfoldable pub count_format : Dict ℕ → Sniffed → Dict ℕ
unfolding detect_format_file insert lookup
count_format counts file =
    let f = detect_format_file file in
    if f == "" then counts else insert f (get_or f 0 counts + 1) counts

-- The variables best and bestN.
pub record Best : Type 0 where
  pub name : String
  pub count : ℕ

-- The body of the loop over the counts.
unfoldable pub better : Best → String × ℕ → Best
unfolding str_ltb
better b (f, n) =
    if f == "json"
    then b
    else if ltb b.count n || (nat_eq n b.count && str_ltb f b.name)
    then record { name = f; count = n }
    else b

unfoldable pub best_of : Dict ℕ → Best
unfolding better
best_of counts = foldl better (record { name = ""; count = 0 }) counts

-- A file below a directory: the directories above it and below that, its path, and what is in it.
pub record Entry : Type 0 where
  pub dirs : List String
  pub path : String
  pub sniffed : Sniffed

-- cli/analyze.go, vendoredDirs
abbrev pub vendored_dirs : List String
vendored_dirs =
    "node_modules" ∷ ".git" ∷ ".venv" ∷ "venv" ∷ "__pycache__" ∷ ".tox" ∷ ".mypy_cache"
    ∷ "site-packages" ∷ []

-- The files that the walk skips.
unfoldable pub is_left_out : Entry → Bool
unfolding any contains contains_any ends_with_any codes
is_left_out e =
    any (contains vendored_dirs) e.dirs
    || contains_any (codes e.path) ("/node_modules/" ∷ "/.git/" ∷ "/dist/" ∷ "/build/" ∷ [])
    || ends_with_any (codes e.path) (".test.ts" ∷ ".test.py" ∷ [])

-- What is chosen from the counts, in an order of the map.
unfoldable pub most_common : Dict ℕ → String
unfolding best_of lookup
most_common counts =
    let best = (best_of counts).name in
    if best == "" then (if ltb 0 (get_or "json" 0 counts) then "json" else "") else best

unfoldable pub detect_format_dir : List Entry → String
unfolding most_common count_format select is_left_out
detect_format_dir entries = most_common (
    foldl count_format []
      (map (λ (e : Entry). e.sniffed) (select (λ e. not (is_left_out e)) entries)))

-- What os.Stat and the walk show of an input.
pub data Input : Type 0 where
  missing : Input
  file : Sniffed → Input
  directory : List Entry → Input

unfoldable pub detect_format : Input → String
unfolding detect_format_file detect_format_dir
detect_format missing = ""
detect_format (file f) = detect_format_file f
detect_format (directory fs) = detect_format_dir fs

-- `none` is the error that nothing was detected.
unfoldable pub resolve_input_format : String → Input → Option String
unfolding detect_format
resolve_input_format flag input =
    let detected = detect_format input in
    if flag == ""
    then some (if detected == "" || detected == "json" then "json" else detected)
    else if flag == "auto"
    then (if detected == "" then none else some detected)
    else some flag

unfoldable pub resolve_output_format : String → String → Bool → String
resolve_output_format flag output_file is_terminal =
    if flag == "" then (if output_file == "" && is_terminal then "markdown" else "json") else flag
