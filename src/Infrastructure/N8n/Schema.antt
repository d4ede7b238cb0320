-- ===== src/Infrastructure/N8n/Schema.antt =====
-- infrastructure/parser/n8n.go: the decoded document.
use shingan.Prelude.{String, Bool, List, Dict}
use shingan.Prelude.Int.{ℤ}
use shingan.Domain.Value.{Config, Float}

pub record N8nNode : Type 0 where
  pub id : String
  pub name : String
  pub type : String
  pub parameters : Config
  pub position : List Float
  pub disabled : Bool
  pub shingan_ignore : List String

pub record N8nConnection : Type 0 where
  pub node : String
  pub type : String
  pub index : ℤ

-- The destinations, by port name and by the number of the output.
abbrev pub N8nConnectionsByPort : Type 0
N8nConnectionsByPort = Dict (List (List N8nConnection))

pub record N8nWorkflow : Type 0 where
  pub name : String
  pub nodes : List N8nNode
  pub connections : Dict N8nConnectionsByPort
