-- ===== src/Graph/Traverse/Reach.antt =====
-- internal/storage/graphstore/traverse.go: what `DFS` returns is reached by that many edges.
pub mod Outgoing
use mini_graph_db.Prelude.{
  ℕ, zero, suc, ◌^◌, ◌<◌, ◌≤◌, Bool, true, false, List, ◌≡◌, ◌≢◌, sym, ap, ◌∙◌, ◌||◌, if◌then◌else◌,
  ◌==◌, nat_eq, All, ltb,
}
use mini_graph_db.Prelude.Bytes.{Bytes, bytes_eq}
use mini_graph_db.Storage.{Keyspace, Result, ◌>>=◌, ks_out, ks_node}
use mini_graph_db.Storage.Ensures.{Ensures}
use mini_graph_db.Txn.Backend.{Backend}
use mini_graph_db.Graph.Keys.{id_key}
use mini_graph_db.Graph.Indexing.{Indexing, Has}
use mini_graph_db.Graph.Store.{contains}
use mini_graph_db.Graph.Store.Scans.{HoldsId}
use mini_graph_db.Graph.Store.Links.{IsEdge}
use mini_graph_db.Graph.Traverse.{Neighbor, Walked, outgoing}
use mini_graph_db.Graph.Traverse.Reach.Outgoing.{Hop}

module _ (b : Backend) where
  open b use {Tx, view, IsOpen}

  -- A route along edges, with its length.
  unfoldable pub Route : Tx → ℕ → ℕ → ℕ → Type 0
  Route t a c zero = a ≡ c
  Route t a c (suc n) = (m : ℕ) × Route t a m n × Hop b t m c

  pub record IsReached (t : Tx) (start top : ℕ) (seen : List ℕ) (n : Neighbor) : Type 0 where
    pub route : Route t start n.node.id n.depth
    pub within : n.depth ≤ top
    pub fresh : contains (λ x. x == n.node.id) seen ≡ false
    pub stands : Has b t ks_node (id_key n.node.id)

  pub record IsWalk (t : Tx) (start top : ℕ) (seen : List ℕ) (x : Walked) : Type 0 where
    pub reached : All (IsReached t start top seen) x.0
    pub grows : (i : ℕ) → HoldsId i seen → HoldsId i x.1

module _ (b : Backend) (ix : Indexing b) where
  open b use {Tx, view, IsOpen}

  -- What a deeper walk keeps.
  Deepens : Tx → ℕ → ℕ → ℕ → (ℕ → List ℕ → Result Walked) → Type 0
  Deepens t start top next deeper =
      (to : ℕ) (seen : List ℕ)
      → Route b t start to next
      → to < 2 ^ 64
      → Ensures (deeper to seen) (IsWalk b t start top seen)
