-- ===== src/Graph/Facade/Runs.antt =====
-- internal/graph/graph.go: sequences of the calls on one node or one edge outside an explicit
-- transaction; not Import, explicit transactions or schema calls.
pub mod Sound
pub mod Linked
use mini_graph_db.Prelude.{
  ℕ, ◌+◌, ◌^◌, ◌<◌, ◌≤◌, List, [], ◌∷◌, ◌≡◌, refl, sym, arith, ◌∙◌, none, Option, length,
}
use mini_graph_db.Prelude.Bytes.{Bytes}
use mini_graph_db.Prelude.Assoc.{Assoc}
use mini_graph_db.Storage.{
  Keyspace, Result, ok, err, ◌>>=◌, ks_catalog, ks_node, ks_edge, ks_out, ks_in, ks_edge_type,
}
use mini_graph_db.Storage.Ensures.{Ensures, Ensures-ok, Ensures-after, Ensures-bind}
use mini_graph_db.Txn.Backend.{Backend}
use mini_graph_db.Value.{Value}
use mini_graph_db.Graph.{Node, Edge}
use mini_graph_db.Graph.Keys.{cat_next_edge, catalog_key}
use mini_graph_db.Graph.Names.{read_counter}
use mini_graph_db.Graph.Indexing.{Indexing, Kept}
use mini_graph_db.Graph.Store.{unless_empty}
use mini_graph_db.Graph.Store.Links.{IsLinked, IsEdge, SameGraph}
use mini_graph_db.Graph.Store.Links.Writes.{SameGraph-IsLinked}
use mini_graph_db.Graph.Store.Reads.{
  read_counter-same, read_counter-view, Kept-IsLinked, Kept-counter,
}
use mini_graph_db.Graph.Store.Edges.{kept}
use mini_graph_db.Graph.Store.Edges.Create.{create_edge-Ensures}
use mini_graph_db.Graph.Store.Edges.Delete.{delete_edge-Ensures}
use mini_graph_db.Graph.Store.Edges.Rewrite.{Rewritten, edge_changes-Rewritten}
use mini_graph_db.Graph.Store.Nodes.Delete.{delete_node-Ensures}
use mini_graph_db.Graph.Store.Nodes.Writes.{NodeWritten}
use mini_graph_db.Graph.Store.Nodes.Changes.{create_node-NodeWritten, node_changes-NodeWritten}
use mini_graph_db.Graph.Facade
use mini_graph_db.Graph.Store
use mini_graph_db.Graph.Facade.{write, read, validate_props}

-- The calls that write.
pub data Call : Type 0 where
  creates_node : List Bytes → Assoc Bytes Value → Call
  updates_node : ℕ → Assoc Bytes Value → Call
  deletes_node : ℕ → Call
  creates_edge : (from to : ℕ) → Bytes → Assoc Bytes Value → Call
  updates_edge : ℕ → Assoc Bytes Value → Call
  adds_labels : ℕ → List Bytes → Call
  removes_labels : ℕ → List Bytes → Call
  replaces_node_props : ℕ → Assoc Bytes Value → Call
  deletes_node_props : ℕ → List Bytes → Call
  replaces_edge_props : ℕ → Assoc Bytes Value → Call
  deletes_edge_props : ℕ → List Bytes → Call
  deletes_edge : ℕ → Call

-- The ids of a call are uint64.
unfoldable pub FitsCall : Call → Type 0
FitsCall (deletes_node id) = id < 2 ^ 64
FitsCall (creates_edge from to label props) = (from < 2 ^ 64) × (to < 2 ^ 64)
FitsCall (updates_edge id props) = id < 2 ^ 64
FitsCall (replaces_edge_props id props) = id < 2 ^ 64
FitsCall (deletes_edge_props id names) = id < 2 ^ 64
FitsCall (deletes_edge id) = id < 2 ^ 64
FitsCall _ = Unit

unfoldable pub AllFit : List Call → Type 0
AllFit [] = Unit
AllFit (c ∷ calls) = FitsCall c × AllFit calls

-- An error leaves the engine as it was.
abbrev pub after : {A Eng : Type 0} → Eng → Result (A × Eng) → Eng
after e (ok (a, e')) = e'
after e (err x) = e

module _ (b : Backend) (ix : Indexing b) where
  open b use {Tx, Eng, begin, commit, view, holds, IsOpen, IsReady}

  unfoldable pub call : Eng → Call → Eng
  call e (creates_node labels props) = after e (Facade.create_node b ix e labels props)
  call e (updates_node id props) = after e (Facade.update_node_values b ix e id props)
  call e (deletes_node id) = after e (Facade.delete_node b ix e id)
  call e (creates_edge from to label props) =
      after e (Facade.create_edge b ix e from to label props)
  call e (updates_edge id props) = after e (Facade.update_edge_values b ix e id props)
  call e (adds_labels id labels) = after e (Facade.add_labels b ix e id labels)
  call e (removes_labels id labels) = after e (Facade.remove_labels b ix e id labels)
  call e (replaces_node_props id props) = after e (Facade.replace_node_props b ix e id props)
  call e (deletes_node_props id names) = after e (Facade.delete_node_props b ix e id names)
  call e (replaces_edge_props id props) = after e (Facade.replace_edge_props b ix e id props)
  call e (deletes_edge_props id names) = after e (Facade.delete_edge_props b ix e id names)
  call e (deletes_edge id) = after e (Facade.delete_edge b ix e id)

  unfoldable pub run : Eng → List Call → Eng
  run e [] = e
  run e (c ∷ calls) = run (call e c) calls
