-- ===== src/Infrastructure/N8n/Kind.antt =====
-- infrastructure/parser/n8n.go, mapN8nNodeType: the type of a node from the name of its n8n type.
use shingan.Prelude.{ℕ, String, Bool, ◌||◌, List, [], ◌∷◌, any, if◌then◌else◌}
use shingan.Prelude.Text.{codes}
use shingan.Prelude.Words.{to_lower, has_word, has_suffix}
use shingan.Domain.NodeType.{NodeType, llm, tool, condition}

unfoldable pub contains_any : List ℕ → List String → Bool
unfolding any has_word codes
contains_any s needles = any (λ n. has_word s (codes n)) needles

unfoldable pub ends_with_any : List ℕ → List String → Bool
unfolding any has_suffix codes
ends_with_any s suffixes = any (λ n. has_suffix s (codes n)) suffixes

abbrev pub llm_words : List String
llm_words =
    "openai" ∷ "chatgpt" ∷ "anthropic" ∷ "claude" ∷ "gemini" ∷ "vertex" ∷ "bedrock" ∷ "ollama"
    ∷ "mistral" ∷ "cohere" ∷ "huggingface" ∷ []

abbrev pub agent_words : List String
agent_words = "ai-agent" ∷ "ai_agent" ∷ ".agent" ∷ "agent." ∷ "/agent" ∷ []

abbrev pub code_words : List String
code_words = ".code" ∷ "executecommand" ∷ "function" ∷ "pythonfunction" ∷ []

unfoldable pub map_n8n_node_type : String → NodeType × String
unfolding contains_any ends_with_any to_lower
map_n8n_node_type t =
    let lt = to_lower t in
    if contains_any lt ("webhook" ∷ "trigger" ∷ [])
    then (tool, "trigger")
    else if contains_any lt llm_words
    then (llm, "")
    else if contains_any lt ("n8n-nodes-langchain" ∷ [])
    then (llm, "")
    else if contains_any lt agent_words
    then (llm, "")
    else if contains_any lt ("llm" ∷ [])
    then (llm, "")
    else if contains_any lt code_words
    then (tool, "code_execution")
    else if ends_with_any lt (".if" ∷ ".switch" ∷ []) || contains_any lt ("filter" ∷ "router" ∷ [])
    then (condition, "")
    else if contains_any lt ("httprequest" ∷ "http" ∷ ".api" ∷ "rest" ∷ [])
    then (tool, "api")
    else (tool, "api")
