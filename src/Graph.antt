-- ===== src/Graph.antt =====
-- internal/storage/graphstore: nodes, edges, their adjacency and label keys, and interned names, over
-- a transaction of the storage interface.
pub mod Keys
pub mod Names
pub mod Records
pub mod Indexing
pub mod Store
pub mod Declared
pub mod Facade
pub mod Queries
pub mod Traverse
pub mod Snapshot
use mini_graph_db.Prelude.{ℕ, Bool, List}
use mini_graph_db.Prelude.Bytes.{Bytes}
use mini_graph_db.Storage.{Result}
use mini_graph_db.Txn.Backend.{Backend}
use mini_graph_db.Value.{Value}

pub record Prop : Type 0 where
  pub id : ℕ
  pub name : Bytes
  pub value : Value

pub record Node : Type 0 where
  pub id : ℕ
  pub labels : List Bytes
  pub props : List Prop

pub record Edge : Type 0 where
  pub id : ℕ
  pub from : ℕ
  pub to : ℕ
  pub label : Bytes
  pub props : List Prop

-- `edgeRec`.
pub record EdgeRec : Type 0 where
  pub edge : Edge
  pub type_id : ℕ
