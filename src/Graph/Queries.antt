-- ===== src/Graph/Queries.antt =====
-- internal/storage/graphstore/store.go: the queries over many nodes or edges.
pub mod Missing
pub mod Gather
pub mod Shown
pub mod Once
pub mod Leads
pub mod Between
use mini_graph_db.Prelude.{
  ℕ, ◌+◌, Bool, true, false, not, Option, none, some, List, [], ◌∷◌, ◌++◌, map, length, take, drop,
  if◌then◌else◌, leb, ltb, ◌==◌, nat_eq, ◌||◌, ◌&&◌,
}
use mini_graph_db.Prelude.Bytes.{Bytes, bytes_eq, uint64, uint32, put_uint32}
use mini_graph_db.Storage.{
  Keyspace, Result, ok, err, ◌>>=◌, is_not_found, ks_node, ks_edge, ks_out, ks_label, ks_edge_type,
  ks_prop,
}
use mini_graph_db.Txn.Backend.{Backend}
use mini_graph_db.Txn.Versions.{has_prefix}
use mini_graph_db.Value.{Value}
use mini_graph_db.Graph.{Node, Edge}
use mini_graph_db.Graph.Keys.{
  cat_prop, cat_label, cat_edge_type, cat_label_rev, id_key, Adjacent, parse_adj,
}
use mini_graph_db.Graph.Names.{cat_name, lookup_name}
use mini_graph_db.Graph.Indexing.{Indexing}
use mini_graph_db.Graph.Store.{contains, sort_labels, scan_prefix, get_node, get_edge}

-- `Stats`.
pub record GraphStats : Type 0 where
  pub nodes : ℕ
  pub edges : ℕ
  pub labels : List Bytes

-- `if IsNotFound(err) { continue }`.
abbrev pub skip_missing : {A : Type 0} → Result A → Result (Option A)
skip_missing (ok a) = ok (some a)
skip_missing (err e) = if is_not_found e then ok none else err e

abbrev pub add_some : {A : Type 0} → Option A → List A → List A
add_some none out = out
add_some (some a) out = a ∷ out

-- `sort.Slice` by id.
unfoldable pub insert_by {ℓ} : {A : Type ℓ} → (A → ℕ) → A → List A → List A
insert_by id x [] = x ∷ []
insert_by id x (y ∷ ys) = if leb (id x) (id y) then x ∷ y ∷ ys else y ∷ insert_by id x ys

unfoldable pub sort_by {ℓ} : {A : Type ℓ} → (A → ℕ) → List A → List A
sort_by id [] = []
sort_by id (x ∷ xs) = insert_by id x (sort_by id xs)

-- The id at the end of a key of a given length.
abbrev pub id_behind : ℕ → Bytes → Option ℕ
id_behind n k = if length k == n + 8 then some (uint64 (drop n k)) else none

abbrev pub id_of_prop : Bytes → Bytes → Option ℕ
id_of_prop prefix k =
    if length k == length prefix + 8 && has_prefix prefix k
    then some (uint64 (drop (length prefix) k))
    else none

-- `!ok || dest != to`.
abbrev pub id_to : ℕ → Option Adjacent → Option ℕ
id_to to none = none
id_to to (some adj) = if adj.b == to then some adj.edge_id else none

unfoldable pub prop_index_prefix : ℕ → Bytes → Bytes
prop_index_prefix prop_id encoded = put_uint32 prop_id ++ encoded

-- The loops over keys: what a key does not name, or the graph does not have, is passed over.
unfoldable pub gather : {A : Type 0} → (ℕ → Result (Option A)) → List (Option ℕ) → Result (List A)
gather get [] = ok []
gather get (none ∷ ids) = gather get ids
gather get (some id ∷ ids) = do o ← get id; out ← gather get ids; ok (add_some o out)

abbrev pub when_known : {A : Type 0} → Option ℕ → (ℕ → Result (List A)) → Result (List A)
when_known none query = ok []
when_known (some id) query = query id

module _ (b : Backend) (ix : Indexing b) where
  open b use {Tx}

  unfoldable pub nodes_by_label : Tx → Bytes → Result (List Node)
  nodes_by_label t label = do
    known ← lookup_name b t cat_label label
    when_known known λ id. do
      keys ← scan_prefix b ix t ks_label (put_uint32 id)
      out ← gather (λ n. skip_missing (get_node b ix t n)) (map (id_behind 4) keys)
      ok (sort_by (λ n. n.id) out)

  unfoldable pub nodes_by_prop_eq : Tx → Bytes → Value → Result (List Node)
  nodes_by_prop_eq t key val = do
    known ← lookup_name b t cat_prop key
    when_known known λ id. do
      let prefix = prop_index_prefix id (ix.encode_key val)
      keys ← scan_prefix b ix t ks_prop prefix
      out ← gather (λ n. skip_missing (get_node b ix t n)) (map (id_of_prop prefix) keys)
      ok (sort_by (λ n. n.id) out)

  unfoldable pub all_nodes : Tx → Result (List Node)
  all_nodes t = do
    keys ← scan_prefix b ix t ks_node []
    gather (λ n. do x ← get_node b ix t n; ok (some x)) (map (id_behind 0) keys)

  unfoldable pub all_edges : Tx → Result (List Edge)
  all_edges t = do
    keys ← scan_prefix b ix t ks_edge []
    gather (λ i. do x ← get_edge b ix t i; ok (some x)) (map (id_behind 0) keys)

  unfoldable pub edges_between : Tx → (from to : ℕ) → Result (List Edge)
  edges_between t from to = do
    _ ← get_node b ix t from
    _ ← get_node b ix t to
    keys ← scan_prefix b ix t ks_out (id_key from)
    out ← gather (λ i. skip_missing (get_edge b ix t i)) (map (λ k. id_to to (parse_adj k)) keys)
    ok (sort_by (λ e. e.id) out)

  unfoldable pub edges_by_label : Tx → Bytes → Result (List Edge)
  edges_by_label t label = do
    known ← lookup_name b t cat_edge_type label
    when_known known λ id. do
      keys ← scan_prefix b ix t ks_edge_type (put_uint32 id)
      out ← gather (λ i. skip_missing (get_edge b ix t i)) (map (id_behind 4) keys)
      ok (sort_by (λ e. e.id) out)

  -- The loop of `GraphStats` over the label keys.
  unfoldable pub stats_labels : Tx → List ℕ → List Bytes → Result (List Bytes)
  stats_labels t seen [] = ok []
  stats_labels t seen (k ∷ keys) = elim (ltb (length k) 4 || contains (λ x. x == uint32 k) seen) [
    | true ↦ stats_labels t seen keys
    | false ↦ do
      o ← cat_name b t cat_label_rev (uint32 k)
      labels ← stats_labels t (uint32 k ∷ seen) keys
      ok (add_some o labels)
  ]

  unfoldable pub graph_stats : Tx → Result GraphStats
  graph_stats t = do
    nodes ← scan_prefix b ix t ks_node []
    edges ← scan_prefix b ix t ks_edge []
    label_keys ← scan_prefix b ix t ks_label []
    labels ← stats_labels t [] label_keys
    ok (record { nodes = length nodes; edges = length edges; labels = sort_labels labels })
