-- ===== src/Domain/NodeType.antt =====
-- domain/graph.go: the category of a node and its names.
pub mod Laws
mod Tests
use shingan.Prelude.{String, Bool, true, false, ◌≡◌, Option, none, some, [], ◌∷◌, lookup, Dict}
use shingan.Prelude.Int.{ℤ, pos}
use shingan.Prelude.{zero, suc}

-- A Go `NodeType` is an int. `numbered n` stands for a number that no constant has.
pub data NodeType : Type 0 where
  llm tool control human output loop condition sequence parallel task : NodeType
  numbered : ℤ → NodeType

-- n.Type == NodeTypeTool
unfoldable pub is_tool : NodeType → Bool
is_tool tool = true
is_tool _ = false

-- n.Type == NodeTypeLLM
unfoldable pub is_llm : NodeType → Bool
is_llm llm = true
is_llm _ = false

-- NodeType(n)
unfoldable pub of_int : ℤ → NodeType
of_int (pos zero) = llm
of_int (pos (suc zero)) = tool
of_int (pos (suc (suc zero))) = control
of_int (pos (suc (suc (suc zero)))) = human
of_int (pos (suc (suc (suc (suc zero))))) = output
of_int (pos (suc (suc (suc (suc (suc zero)))))) = loop
of_int (pos (suc (suc (suc (suc (suc (suc zero))))))) = condition
of_int (pos (suc (suc (suc (suc (suc (suc (suc zero)))))))) = sequence
of_int (pos (suc (suc (suc (suc (suc (suc (suc (suc zero))))))))) = parallel
of_int (pos (suc (suc (suc (suc (suc (suc (suc (suc (suc zero)))))))))) = task
of_int n = numbered n

unfoldable pub node_type_strings : Dict NodeType
node_type_strings =
    ("llm", llm)
    ∷ ("tool", tool)
    ∷ ("control", loop)
    ∷ ("human", human)
    ∷ ("output", output)
    ∷ ("loop", loop)
    ∷ ("condition", condition)
    ∷ ("sequence", sequence)
    ∷ ("parallel", parallel)
    ∷ ("task", task)
    ∷ []

-- What `String` writes: a name, or `NodeType(n)` for a number that no constant has.
pub data Label : Type 0 where
  name : String → Label
  node_type_of : ℤ → Label

unfoldable pub to_string : NodeType → Label
to_string llm = name "llm"
to_string tool = name "tool"
to_string control = name "control"
to_string human = name "human"
to_string output = name "output"
to_string loop = name "loop"
to_string condition = name "condition"
to_string sequence = name "sequence"
to_string parallel = name "parallel"
to_string task = name "task"
to_string (numbered n) = node_type_of n

-- The JSON values that a node type is read from: a string, an integer, or another one.
pub data Json : Type 0 where
  text : String → Json
  integer : ℤ → Json
  other : Json

-- MarshalJSON: the string that `String` returns. `NodeType(n)` is the text of no entry of the table.
unfoldable pub marshal_json : NodeType → Label
unfolding to_string
marshal_json t = to_string t

-- UnmarshalJSON: a known name, else an integer; `none` is an error.
unfoldable pub unmarshal_json : Json → Option NodeType
unfolding node_type_strings of_int
unmarshal_json (text s) = lookup s node_type_strings
unmarshal_json (integer n) = some (of_int n)
unmarshal_json other = none
