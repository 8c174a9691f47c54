-- ===== src/Graph/Queries/Between.antt =====
-- internal/storage/graphstore/store.go: `EdgesBetween` gives the edges between two nodes.
use mini_graph_db.Prelude.{ℕ, true, List, map, ◌≡◌, nat_eq, All}
use mini_graph_db.Prelude.Bytes.{Bytes, bytes_eq}
use mini_graph_db.Storage.{ks_out}
use mini_graph_db.Storage.Ensures.{Ensures}
use mini_graph_db.Txn.Backend.{Backend}
use mini_graph_db.Txn.Versions.{has_prefix}
use mini_graph_db.Graph.{Edge}
use mini_graph_db.Graph.Keys.{id_key}
use mini_graph_db.Graph.Indexing.{Indexing, Has}
use mini_graph_db.Graph.Records.Ends.{Ends}
use mini_graph_db.Graph.Store.Scans.{HoldsKey, HoldsId}
use mini_graph_db.Graph.Store.Links.{IsEdge}
use mini_graph_db.Graph.Queries.Shown.{Shown}
use mini_graph_db.Graph.Queries.Once.{Once}
use mini_graph_db.Graph.Queries.Gather.{ids_of}

module _ (b : Backend) (ix : Indexing b) where
  open b use {Tx, view, IsOpen}

  -- The edges between two nodes.
  pub record IsBetween (t : Tx) (from to : ℕ) (es : List Edge) : Type 0 where
    pub complete :
        (i : ℕ) (f : Ends)
        → IsEdge b t i f
        → f.from ≡ from
        → f.to ≡ to
        → HoldsId i (map (λ e. e.id) es)
    pub sound :
        (i : ℕ)
        → HoldsId i (map (λ e. e.id) es)
        → (f : Ends) × IsEdge b t i f × (f.from ≡ from) × (f.to ≡ to)
    -- What is returned is what stands there, and leads from the one to the other.
    pub shown : All (λ e. Shown b ix t e × (e.from ≡ from) × (e.to ≡ to)) es
    pub once : Once (ids_of es)

  -- What the scan of the outgoing keys has found.
  record IsScanned (t : Tx) (from : ℕ) (keys : List Bytes) : Type 0 where
    pub sound :
        (k : Bytes) → HoldsKey k keys → (has_prefix (id_key from) k ≡ true) × Has b t ks_out k
    pub complete :
        (k : Bytes) → Has b t ks_out k → has_prefix (id_key from) k ≡ true → HoldsKey k keys
