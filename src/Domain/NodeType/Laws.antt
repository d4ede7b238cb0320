-- ===== src/Domain/NodeType/Laws.antt =====
-- Reading back the name of a node type, and the tests for one.
use shingan.Prelude.{String, true, ◌≡◌, ◌↔◌, refl, some, lookup}
use shingan.Domain.NodeType.{
  NodeType, llm, tool, control, human, output, loop, condition, sequence, parallel, task, numbered,
  name, text, marshal_json, unmarshal_json, is_tool, is_llm,
}

-- What reading a written type gives back: `control` comes back as `loop`.
abbrev pub canonical : NodeType → NodeType
canonical control = loop
canonical t = t

-- A node type that is written as a name is read back, the deprecated `control` as `loop`; only a
-- number that no constant has is written otherwise.
pub unmarshal-marshal :
    (t : NodeType) (s : String)
    → marshal_json t ≡ name s
    → unmarshal_json (text s) ≡ some (canonical t)
unfolding marshal_json unmarshal_json lookup
unmarshal-marshal llm s h = let e : s ≡ "llm" = cc (h) in rw e refl
unmarshal-marshal tool s h = let e : s ≡ "tool" = cc (h) in rw e refl
unmarshal-marshal control s h = let e : s ≡ "control" = cc (h) in rw e refl
unmarshal-marshal human s h = let e : s ≡ "human" = cc (h) in rw e refl
unmarshal-marshal output s h = let e : s ≡ "output" = cc (h) in rw e refl
unmarshal-marshal loop s h = let e : s ≡ "loop" = cc (h) in rw e refl
unmarshal-marshal condition s h = let e : s ≡ "condition" = cc (h) in rw e refl
unmarshal-marshal sequence s h = let e : s ≡ "sequence" = cc (h) in rw e refl
unmarshal-marshal parallel s h = let e : s ≡ "parallel" = cc (h) in rw e refl
unmarshal-marshal task s h = let e : s ≡ "task" = cc (h) in rw e refl
unmarshal-marshal (numbered n) s h = cc (h)

pub is_tool_iff : (t : NodeType) → (is_tool t ≡ true) ↔ (t ≡ tool)
unfolding is_tool
is_tool_iff tool = (λ _. refl, λ _. refl)
is_tool_iff _ = (λ h. cc h, λ h. cc h)

pub is_llm_iff : (t : NodeType) → (is_llm t ≡ true) ↔ (t ≡ llm)
unfolding is_llm
is_llm_iff llm = (λ _. refl, λ _. refl)
is_llm_iff _ = (λ h. cc h, λ h. cc h)
