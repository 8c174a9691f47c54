-- ===== src/Graph/Snapshot.antt =====
-- internal/storage/graphstore/store.go: `Replace`, which clears the graph and writes a snapshot.
pub mod Clear
use mini_graph_db.Prelude.{
  ℕ, ◌+◌, ◌%◌, ◌^◌, not, List, [], ◌∷◌, Option, none, some, true, false, length, if◌then◌else◌, ltb,
  leb, ◌==◌, nat_eq, ◌||◌,
}
use mini_graph_db.Prelude.Bytes.{Bytes, bytes_eq}
use mini_graph_db.Prelude.Assoc.{Assoc, insert}
use mini_graph_db.Storage.{
  Keyspace, Result, ok, err, ◌>>=◌, ks_node, ks_edge, ks_out, ks_in, ks_label, ks_edge_type,
  ks_prop, ks_catalog,
}
use mini_graph_db.Txn.Backend.{Backend}
use mini_graph_db.Graph.{Prop, Node, Edge}
use mini_graph_db.Graph.Keys.{
  cat_prop, cat_prop_rev, cat_next_prop, cat_edge_type, cat_type_rev, cat_next_type, cat_next_node,
  cat_next_edge,
}
use mini_graph_db.Graph.Names.{write_counter, put_name, intern, cat_name}
use mini_graph_db.Graph.Indexing.{Indexing}
use mini_graph_db.Graph.Store.{
  check_storable, props_of, normalize_labels, scan_prefix, write_node, write_edge,
}

-- `Snapshot`.
pub record GraphSnapshot : Type 0 where
  pub nodes : List Node
  pub edges : List Edge
  pub next_node : ℕ
  pub next_edge : ℕ
  pub prop_keys : List Bytes

abbrev pub data_keyspaces : List Keyspace
data_keyspaces =
    ks_node ∷ ks_edge ∷ ks_out ∷ ks_in ∷ ks_label ∷ ks_edge_type ∷ ks_prop ∷ ks_catalog ∷ []

unfoldable pub normalize_prop_keys : List Bytes → List Bytes
normalize_prop_keys [] = [] ∷ []
normalize_prop_keys (k ∷ keys) = if k == [] then k ∷ keys else [] ∷ k ∷ keys

abbrev pub or_one : ℕ → ℕ
or_one n = if n == 0 then 1 else n

-- `if n.ID >= nextN`; the sum is a uint64.
abbrev pub past : ℕ → ℕ → ℕ
past next id = if leb next id then (id + 1) % 2 ^ 64 else next

module _ (b : Backend) (ix : Indexing b) where
  open b use {Tx}

  unfoldable pub delete_keys : Tx → Keyspace → List Bytes → Result Tx
  delete_keys t ks [] = ok t
  delete_keys t ks (k ∷ keys) = do u ← b.delete t ks k; delete_keys u ks keys

  unfoldable pub clear_keyspace : Tx → Keyspace → Result Tx
  clear_keyspace t ks = do keys ← scan_prefix b ix t ks []; delete_keys t ks keys

  unfoldable pub clear_keyspaces : Tx → List Keyspace → Result Tx
  clear_keyspaces t [] = ok t
  clear_keyspaces t (ks ∷ spaces) = do u ← clear_keyspace t ks; clear_keyspaces u spaces

  -- The loop of `installPropKeys` from key `id` on, with the greatest id so far.
  unfoldable pub install_from : Tx → ℕ → ℕ → List Bytes → Result (ℕ × Tx)
  install_from t id max_id [] = ok (max_id, t)
  install_from t id max_id (name ∷ names) = elim (id == 0 || name == []) [
    | true ↦ install_from t (id + 1) max_id names
    | false ↦ do
      u ← put_name b t cat_prop cat_prop_rev name (id % 2 ^ 32)
      install_from u (id + 1) (if ltb max_id (id % 2 ^ 32) then id % 2 ^ 32 else max_id) names
  ]

  unfoldable pub install_prop_keys : Tx → List Bytes → Result Tx
  install_prop_keys t keys = do
    (max_id, u) ← install_from t 0 0 keys
    let next = if ltb (length keys) (max_id + 1) then max_id + 1 else length keys
    write_counter b u cat_next_prop (or_one next)

  -- The id and the name under which a property is kept.
  abbrev pub bind_name : Tx → Prop → Option Bytes → Result ((ℕ × Bytes) × Tx)
  bind_name t p none = do
    (id, u) ← intern b t cat_prop cat_prop_rev cat_next_prop p.name
    ok ((id, p.name), u)
  bind_name t p (some known) = ok ((p.id, if p.name == [] then known else p.name), t)

  unfoldable pub bind_all : Tx → Assoc ℕ Prop → List Prop → Result (Assoc ℕ Prop × Tx)
  bind_all t by_id [] = ok (by_id, t)
  bind_all t by_id (p ∷ props) = do
    _ ← check_storable p.value
    o ← cat_name b t cat_prop_rev p.id
    (bound, u) ← bind_name t p o
    bind_all u (insert bound.0 (record { id = bound.0; name = bound.1; value = p.value }) by_id)
        props

  unfoldable pub bind_props : Tx → List Prop → Result (List Prop × Tx)
  bind_props t props = do (by_id, u) ← bind_all t [] props; ok (props_of by_id, u)

  unfoldable pub insert_node : Tx → Node → Result Tx
  insert_node t n = do
    (ps, u) ← bind_props t n.props
    write_node b ix u (record { id = n.id; labels = normalize_labels n.labels; props = ps })

  unfoldable pub insert_edge : Tx → Edge → Result Tx
  insert_edge t e = do
    (ps, u) ← bind_props t e.props
    (type_id, v) ← intern b u cat_edge_type cat_type_rev cat_next_type e.label
    write_edge b ix v (record { edge = record e { props = ps }; type_id = type_id })

  unfoldable pub insert_nodes : Tx → ℕ → List Node → Result (ℕ × Tx)
  insert_nodes t next [] = ok (next, t)
  insert_nodes t next (n ∷ nodes) = do u ← insert_node t n; insert_nodes u (past next n.id) nodes

  unfoldable pub insert_edges : Tx → ℕ → List Edge → Result (ℕ × Tx)
  insert_edges t next [] = ok (next, t)
  insert_edges t next (e ∷ edges) = do u ← insert_edge t e; insert_edges u (past next e.id) edges

  unfoldable pub replace : Tx → GraphSnapshot → Result Tx
  replace t snap = do
    t1 ← clear_keyspaces t data_keyspaces
    t2 ← install_prop_keys t1 (normalize_prop_keys snap.prop_keys)
    (next_n, t3) ← insert_nodes t2 (or_one snap.next_node) snap.nodes
    (next_e, t4) ← insert_edges t3 (or_one snap.next_edge) snap.edges
    t5 ← write_counter b t4 cat_next_node next_n
    write_counter b t5 cat_next_edge next_e
