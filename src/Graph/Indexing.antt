-- ===== src/Graph/Indexing.antt =====
-- What the graph takes from its neighbours: `value.EncodeKey`, internal/catalog and internal/index as
-- declared.go calls them, and the checks before a commit in internal/graph.
use mini_graph_db.Prelude.{ℕ, ◌≡◌, Bool, false, not, ◌&&◌, ◌||◌, none, some, [], ◌==◌, nat_eq}
use mini_graph_db.Prelude.Bytes.{Bytes, bytes_eq, bytes_beq}
use mini_graph_db.Storage.{Keyspace, Result, ok, ks_catalog, ks_prop, ks_label}
use mini_graph_db.Txn.Backend.{Backend}
use mini_graph_db.Value.{Value}
use mini_graph_db.Graph.{Node, Edge}
use mini_graph_db.Graph.Keys.{cat_next_node, cat_next_edge, catalog_key}

abbrev pub is_counter : Bytes → Bool
is_counter k =
    bytes_beq k (catalog_key cat_next_node []) || bytes_beq k (catalog_key cat_next_edge [])

-- `KindWriteCount` of internal/catalog.
abbrev pub cat_write_count : ℕ
cat_write_count = 37

unfoldable pub is_write_count : Bytes → Bool
is_write_count k = bytes_beq (catalog_key cat_write_count []) k

-- The keys that names and indexes may write: all of keyspaces P and L, and all of keyspace C but the
-- counters of nodes and edges.
unfoldable pub aside : Keyspace → Bytes → Bool
aside ks k = ks == ks_prop || ks == ks_label || (ks == ks_catalog && not (is_counter k))

module _ (b : Backend) where
  open b use {Tx, view, IsOpen}

  abbrev pub Has : Tx → Keyspace → Bytes → Type 0
  Has t ks k = (v : Bytes) × (view t ks k ≡ some v)

  -- No key but those aside has changed.
  pub record Kept (t u : Tx) : Type 0 where
    pub opened : IsOpen u
    pub same : (ks : Keyspace) (k : Bytes) → aside ks k ≡ false → view u ks k ≡ view t ks k

  -- What a call that writes to one keyspace leaves.
  pub record Only (ks : Keyspace) (t u : Tx) : Type 0 where
    pub opened : IsOpen u
    pub rest : (js : Keyspace) (j : Bytes) → (ks == js) ≡ false → view u js j ≡ view t js j

  -- What `catalog.AddWrites` leaves: its one key in keyspace C may be written.
  pub record Counted (t u : Tx) : Type 0 where
    pub opened : IsOpen u
    pub rest :
        (js : Keyspace) (j : Bytes)
        → (ks_catalog == js && is_write_count j) ≡ false
        → view u js j ≡ view t js j

  -- No key more in a keyspace.
  abbrev pub NoMore : Keyspace → Tx → Tx → Type 0
  NoMore ks t u = (j : Bytes) → view t ks j ≡ none → view u ks j ≡ none

  -- The declared indexes and the write count, and the laws that `declared` of Declared fulfils.
  pub record Indexing : Type 0 where
    -- `value.EncodeKey`.
    pub encode_key : Value → Bytes
    -- `indexDeclaredNode` and its like, and `bumpWrites`.
    pub index_node : Tx → Node → Result Tx
    pub unindex_node : Tx → Node → Result Tx
    pub index_edge : Tx → Edge → Result Tx
    pub unindex_edge : Tx → Edge → Result Tx
    pub bump_writes : Tx → Result Tx
    -- `prepareConstraints` and `maybeAnalyze`.
    pub prepare : Tx → Result Tx
    -- Declared indexes write to keyspace P alone, and an entry that goes leaves none behind.
    pub unindex_node_only :
        (t u : Tx) (n : Node)
        → IsOpen t
        → unindex_node t n ≡ ok u
        → Only ks_prop t u × NoMore ks_prop t u
    pub index_edge_only :
        (t u : Tx) (e : Edge) → IsOpen t → index_edge t e ≡ ok u → Only ks_prop t u
    pub unindex_edge_only :
        (t u : Tx) (e : Edge)
        → IsOpen t
        → unindex_edge t e ≡ ok u
        → Only ks_prop t u × NoMore ks_prop t u
    pub bump_writes_only : (t u : Tx) → IsOpen t → bump_writes t ≡ ok u → Counted t u
    -- The write count, the unique locks and the statistics stand in keyspace C, beside the counters.
    pub index_node_kept : (t u : Tx) (n : Node) → IsOpen t → index_node t n ≡ ok u → Kept t u
    pub unindex_node_kept : (t u : Tx) (n : Node) → IsOpen t → unindex_node t n ≡ ok u → Kept t u
    pub index_edge_kept : (t u : Tx) (e : Edge) → IsOpen t → index_edge t e ≡ ok u → Kept t u
    pub unindex_edge_kept : (t u : Tx) (e : Edge) → IsOpen t → unindex_edge t e ≡ ok u → Kept t u
    pub bump_writes_kept : (t u : Tx) → IsOpen t → bump_writes t ≡ ok u → Kept t u
    pub prepare_kept : (t u : Tx) → IsOpen t → prepare t ≡ ok u → Kept t u
