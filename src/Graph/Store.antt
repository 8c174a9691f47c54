-- ===== src/Graph/Store.antt =====
-- internal/storage/graphstore/store.go: the operations on nodes and edges. An error leaves the
-- transaction as far as the call has come, which is not modelled; outside an explicit transaction the
-- graph facade rolls it back then.
pub mod Frames
pub mod Scans
pub mod Links
pub mod Reads
pub mod Edges
pub mod Nodes
use mini_graph_db.Prelude.{
  ℕ, ◌+◌, Bool, true, false, not, Option, none, some, List, [], ◌∷◌, ◌++◌, map, Ordering,
  if◌then◌else◌, leb, ◌==◌, nat_eq, ◌||◌,
}
use mini_graph_db.Prelude.Bytes.{Bytes, bytes_eq, compare_bytes}
use mini_graph_db.Prelude.Assoc.{Assoc, insert}
use mini_graph_db.Storage.{
  Keyspace, Result, ok, err, ◌>>=◌, Error, not_found, invalid_argument, corruption, ks_node,
  ks_edge, ks_out, ks_in, ks_label, ks_edge_type, ks_prop,
}
use mini_graph_db.Memory.Snapshot.{Item}
use mini_graph_db.Txn.Backend.{Backend}
use mini_graph_db.Txn.Versions.{has_prefix}
use mini_graph_db.Value.{Value, storable}
use mini_graph_db.Graph.{Prop, Node, Edge, EdgeRec}
use mini_graph_db.Graph.Keys.{
  cat_prop, cat_label, cat_edge_type, cat_next_node, cat_next_edge, cat_next_prop, cat_next_label,
  cat_next_type, cat_prop_rev, cat_label_rev, cat_type_rev, id_key, out_key, in_key, label_key,
  type_key, prop_index_key, Adjacent, parse_adj,
}
use mini_graph_db.Graph.Names.{maybe, alloc, intern, cat_name, lookup_name}
use mini_graph_db.Graph.Records.{
  DecodedNode, DecodedEdge, encode_node, encode_edge, decode_node, decode_edge,
}
use mini_graph_db.Graph.Indexing.{Indexing}

-- The test of a set that a loop fills.
unfoldable pub contains {ℓ} : {A : Type ℓ} → (A → Bool) → List A → Bool
contains same [] = false
contains same (x ∷ xs) = same x || contains same xs

-- The loop of `normalizeLabels`.
unfoldable pub fresh_labels : List Bytes → List Bytes → List Bytes
fresh_labels seen [] = []
fresh_labels seen (l ∷ ls) = elim (contains (λ x. x == l) seen) [
  | true ↦ fresh_labels seen ls
  | false ↦ l ∷ fresh_labels (l ∷ seen) ls
]

-- `sort.Strings`.
unfoldable pub insert_label : Bytes → List Bytes → List Bytes
insert_label l [] = l ∷ []
insert_label l (x ∷ xs) = elim (compare_bytes l x) [
  | Ordering.gt ↦ x ∷ insert_label l xs
  | _ ↦ l ∷ x ∷ xs
]

unfoldable pub sort_labels : List Bytes → List Bytes
sort_labels [] = []
sort_labels (l ∷ ls) = insert_label l (sort_labels ls)

unfoldable pub normalize_labels : List Bytes → List Bytes
normalize_labels labels = sort_labels (fresh_labels [] labels)

-- `sort.Slice` by id.
unfoldable pub insert_prop : Prop → List Prop → List Prop
insert_prop p [] = p ∷ []
insert_prop p (q ∷ props) = if leb p.id q.id then p ∷ q ∷ props else q ∷ insert_prop p props

unfoldable pub sort_props : List Prop → List Prop
sort_props [] = []
sort_props (p ∷ props) = insert_prop p (sort_props props)

-- `propsByID` and `propsFromNames`.
unfoldable pub props_of {ℓ} : {K : Type ℓ} → Assoc K Prop → List Prop
props_of m = sort_props (map (λ x. x.1) m)

unfoldable pub drop_props : List Prop → List Bytes → List Prop
drop_props [] names = []
drop_props (p ∷ props) names =
    let keep = drop_props props names in
    if contains (λ x. x == p.name) names then keep else p ∷ keep

-- The loop of `RemoveLabels`.
unfoldable pub keep_labels : List Bytes → List Bytes → List Bytes
keep_labels [] gone = []
keep_labels (l ∷ ls) gone =
    let keep = keep_labels ls gone in if contains (λ x. x == l) gone then keep else l ∷ keep

-- The keys that a scan passes before it leaves the prefix.
unfoldable pub leading : Bytes → List Item → List Bytes
leading prefix [] = []
leading prefix ((k, v) ∷ items) =
    let rest = leading prefix items in if has_prefix prefix k then k ∷ rest else []

-- `if ok { ids = append(ids, eid) }`.
abbrev pub add_id : Option Adjacent → List ℕ → List ℕ
add_id none ids = ids
add_id (some adj) ids = adj.edge_id ∷ ids

unfoldable pub edge_ids : List Bytes → List ℕ
edge_ids [] = []
edge_ids (k ∷ keys) = add_id (parse_adj k) (edge_ids keys)

abbrev pub or_missing : Option Bytes → Result Bytes
or_missing none = err not_found
or_missing (some raw) = ok raw

abbrev pub or_corrupt : Option Bytes → Result Bytes
or_corrupt none = err corruption
or_corrupt (some name) = ok name

abbrev pub check_storable : Value → Result (Unit {0})
check_storable v = if not (storable v) then err invalid_argument else ok tt

-- `byName` of the old properties.
unfoldable pub by_name : Assoc Bytes Prop → List Prop → Assoc Bytes Prop
by_name named [] = named
by_name named (p ∷ props) = by_name (insert p.name p named) props

-- `if len(props) == 0`.
abbrev pub unless_empty : {A : Type 0} → Assoc Bytes Value → Result A → Result A → Result A
unless_empty [] same changed = same
unless_empty (_ ∷ _) same changed = changed

module _ (b : Backend) (ix : Indexing b) where
  open b use {Tx}

  unfoldable pub scan_prefix : Tx → Keyspace → Bytes → Result (List Bytes)
  scan_prefix t ks prefix = do items ← b.scan t ks prefix; ok (leading prefix items)

  unfoldable pub names_of : Tx → List ℕ → Result (List Bytes)
  names_of t [] = ok []
  names_of t (id ∷ ids) = do
    o ← cat_name b t cat_label_rev id
    name ← or_corrupt o
    names ← names_of t ids
    ok (name ∷ names)

  unfoldable pub label_names : Tx → List ℕ → Result (List Bytes)
  label_names t ids = do names ← names_of t ids; ok (normalize_labels names)

  unfoldable pub fill_prop_names : Tx → List Prop → Result (List Prop)
  fill_prop_names t [] = ok []
  fill_prop_names t (p ∷ props) = do
    o ← cat_name b t cat_prop_rev p.id
    name ← or_corrupt o
    rest ← fill_prop_names t props
    ok (record p { name = name } ∷ rest)

  unfoldable pub get_node : Tx → ℕ → Result Node
  get_node t id = do
    o ← maybe (b.get t ks_node (id_key id))
    raw ← or_missing o
    dec ← decode_node raw
    labels ← label_names t dec.label_ids
    ps ← fill_prop_names t dec.props
    ok (record { id = id; labels = labels; props = ps })

  unfoldable pub load_edge : Tx → ℕ → Result EdgeRec
  load_edge t id = do
    o ← maybe (b.get t ks_edge (id_key id))
    raw ← or_missing o
    dec ← decode_edge raw
    n ← cat_name b t cat_type_rev dec.type_id
    name ← or_corrupt n
    ps ← fill_prop_names t dec.props
    ok (record {
      edge = record { id = id; from = dec.from; to = dec.to; label = name; props = ps };
      type_id = dec.type_id;
    })

  unfoldable pub get_edge : Tx → ℕ → Result Edge
  get_edge t id = do rec ← load_edge t id; ok rec.edge

  unfoldable pub intern_labels : Tx → List Bytes → Result (List ℕ × Tx)
  intern_labels t [] = ok ([], t)
  intern_labels t (l ∷ ls) = do
    (id, u) ← intern b t cat_label cat_label_rev cat_next_label l
    (ids, v) ← intern_labels u ls
    ok (id ∷ ids, v)

  unfoldable pub index_labels : Tx → ℕ → List ℕ → List ℕ → Result Tx
  index_labels t node_id seen [] = ok t
  index_labels t node_id seen (id ∷ ids) = elim (contains (λ x. x == id) seen) [
    | true ↦ index_labels t node_id seen ids
    | false ↦ do
      u ← b.put t ks_label (label_key id node_id) []
      index_labels u node_id (id ∷ seen) ids
  ]

  abbrev pub unindex_label : Tx → ℕ → Option ℕ → Result Tx
  unindex_label t node_id none = ok t
  unindex_label t node_id (some id) = b.delete t ks_label (label_key id node_id)

  unfoldable pub unindex_labels : Tx → ℕ → List Bytes → Result Tx
  unindex_labels t node_id [] = ok t
  unindex_labels t node_id (l ∷ ls) = do
    o ← lookup_name b t cat_label l
    u ← unindex_label t node_id o
    unindex_labels u node_id ls

  unfoldable pub index_props : Tx → ℕ → List Prop → Result Tx
  index_props t node_id [] = ok t
  index_props t node_id (p ∷ props) = do
    u ← b.put t ks_prop (prop_index_key p.id (ix.encode_key p.value) node_id) []
    index_props u node_id props

  unfoldable pub unindex_props : Tx → ℕ → List Prop → Result Tx
  unindex_props t node_id [] = ok t
  unindex_props t node_id (p ∷ props) = do
    u ← b.delete t ks_prop (prop_index_key p.id (ix.encode_key p.value) node_id)
    unindex_props u node_id props

  -- The loop of `assignProps` over the map that it is given.
  unfoldable pub assign_all : Tx → Assoc ℕ Prop → Assoc Bytes Value → Result (Assoc ℕ Prop × Tx)
  assign_all t by_id [] = ok (by_id, t)
  assign_all t by_id ((name, v) ∷ props) = do
    _ ← check_storable v
    (id, u) ← intern b t cat_prop cat_prop_rev cat_next_prop name
    assign_all u (insert id (record { id = id; name = name; value = v }) by_id) props

  unfoldable pub assign_props : Tx → Assoc Bytes Value → Result (List Prop × Tx)
  assign_props t props = do (by_id, u) ← assign_all t [] props; ok (props_of by_id, u)

  -- The loop of `UpdateNode` and `UpdateEdge` over the map that they are given.
  unfoldable pub merge_props : Tx → Assoc Bytes Prop → Assoc Bytes Value → Result (List Prop × Tx)
  merge_props t named [] = ok (props_of named, t)
  merge_props t named ((name, v) ∷ props) = do
    _ ← check_storable v
    (id, u) ← intern b t cat_prop cat_prop_rev cat_next_prop name
    merge_props u (insert name (record { id = id; name = name; value = v }) named) props

  unfoldable pub write_node : Tx → Node → Result Tx
  write_node t n = do
    (lids, t1) ← intern_labels t n.labels
    t2 ← b.put t1 ks_node (id_key n.id) (encode_node lids n.props)
    t3 ← index_labels t2 n.id [] lids
    t4 ← index_props t3 n.id n.props
    t5 ← ix.index_node t4 n
    ix.bump_writes t5

  unfoldable pub write_edge : Tx → EdgeRec → Result Tx
  write_edge t e = do
    t1 ←
        b.put t ks_edge (id_key e.edge.id)
          (encode_edge e.edge.from e.edge.to e.type_id e.edge.props)
    t2 ← b.put t1 ks_out (out_key e.edge.from e.type_id e.edge.to e.edge.id) []
    t3 ← b.put t2 ks_in (in_key e.edge.to e.type_id e.edge.from e.edge.id) []
    t4 ← b.put t3 ks_edge_type (type_key e.type_id e.edge.id) []
    t5 ← ix.index_edge t4 e.edge
    ix.bump_writes t5

  unfoldable pub create_node : Tx → List Bytes → Assoc Bytes Value → Result (Node × Tx)
  create_node t labels props = do
    (ps, t1) ← assign_props t props
    (id, t2) ← alloc b t1 cat_next_node
    let n : Node = record { id = id; labels = normalize_labels labels; props = ps }
    t3 ← write_node t2 n
    ok (n, t3)

  unfoldable pub create_edge : Tx → (from to : ℕ) → Bytes → Assoc Bytes Value → Result (Edge × Tx)
  create_edge t from to label props = do
    _ ← get_node t from
    _ ← get_node t to
    (ps, t1) ← assign_props t props
    (id, t2) ← alloc b t1 cat_next_edge
    (type_id, t3) ← intern b t2 cat_edge_type cat_type_rev cat_next_type label
    let e : Edge = record { id = id; from = from; to = to; label = label; props = ps }
    t4 ← write_edge t3 (record { edge = e; type_id = type_id })
    ok (e, t4)

  unfoldable pub delete_edge : Tx → ℕ → Result Tx
  delete_edge t id = do
    rec ← load_edge t id
    t1 ← ix.unindex_edge t rec.edge
    t2 ← ix.bump_writes t1
    t3 ← b.delete t2 ks_out (out_key rec.edge.from rec.type_id rec.edge.to rec.edge.id)
    t4 ← b.delete t3 ks_in (in_key rec.edge.to rec.type_id rec.edge.from rec.edge.id)
    t5 ← b.delete t4 ks_edge_type (type_key rec.type_id rec.edge.id)
    b.delete t5 ks_edge (id_key rec.edge.id)

  unfoldable pub incident_edges : Tx → ℕ → Result (List ℕ)
  incident_edges t node_id = do
    outs ← scan_prefix t ks_out (id_key node_id)
    ins ← scan_prefix t ks_in (id_key node_id)
    ok (edge_ids outs ++ edge_ids ins)

  -- The loop of `DeleteNode` over the incident edges: a self-loop is there twice.
  unfoldable pub delete_edges : Tx → List ℕ → List ℕ → Result Tx
  delete_edges t seen [] = ok t
  delete_edges t seen (eid ∷ eids) = elim (contains (λ x. x == eid) seen) [
    | true ↦ delete_edges t seen eids
    | false ↦ do u ← delete_edge t eid; delete_edges u (eid ∷ seen) eids
  ]

  unfoldable pub delete_node : Tx → ℕ → Result Tx
  delete_node t id = do
    n ← get_node t id
    eids ← incident_edges t id
    t1 ← delete_edges t [] eids
    t2 ← unindex_labels t1 id n.labels
    t3 ← unindex_props t2 id n.props
    t4 ← ix.unindex_node t3 n
    t5 ← ix.bump_writes t4
    b.delete t5 ks_node (id_key id)

  -- `UpdateNode` behind its test on an empty map.
  unfoldable pub update_node_with : Tx → Node → Assoc Bytes Value → Result (Node × Tx)
  update_node_with t n props = do
    t1 ← unindex_props t n.id n.props
    t2 ← ix.unindex_node t1 n
    (ps, t3) ← merge_props t2 (by_name [] n.props) props
    let m : Node = record n { props = ps }
    t4 ← write_node t3 m
    ok (m, t4)

  unfoldable pub update_node : Tx → ℕ → Assoc Bytes Value → Result (Node × Tx)
  update_node t id props = do
    n ← get_node t id
    unless_empty props (ok (n, t)) (update_node_with t n props)

  unfoldable pub update_edge_with : Tx → EdgeRec → Assoc Bytes Value → Result (Edge × Tx)
  update_edge_with t rec props = do
    t1 ← ix.unindex_edge t rec.edge
    (ps, t2) ← merge_props t1 (by_name [] rec.edge.props) props
    let e : Edge = record rec.edge { props = ps }
    t3 ← write_edge t2 (record rec { edge = e })
    ok (e, t3)

  unfoldable pub update_edge : Tx → ℕ → Assoc Bytes Value → Result (Edge × Tx)
  update_edge t id props = do
    rec ← load_edge t id
    unless_empty props (ok (rec.edge, t)) (update_edge_with t rec props)

  unfoldable pub rewrite_node : Tx → Node → List Bytes → List Prop → Result (Node × Tx)
  rewrite_node t n labels props = do
    t1 ← unindex_labels t n.id n.labels
    t2 ← unindex_props t1 n.id n.props
    t3 ← ix.unindex_node t2 n
    let m : Node = record n { labels = normalize_labels labels; props = props }
    t4 ← write_node t3 m
    ok (m, t4)

  unfoldable pub add_labels : Tx → ℕ → List Bytes → Result (Node × Tx)
  add_labels t id added = do n ← get_node t id; rewrite_node t n (n.labels ++ added) n.props

  unfoldable pub remove_labels : Tx → ℕ → List Bytes → Result (Node × Tx)
  remove_labels t id gone = do
    n ← get_node t id
    rewrite_node t n (keep_labels n.labels gone) n.props

  unfoldable pub replace_node_props : Tx → ℕ → Assoc Bytes Value → Result (Node × Tx)
  replace_node_props t id props = do
    n ← get_node t id
    (ps, u) ← assign_props t props
    rewrite_node u n n.labels ps

  unfoldable pub delete_node_props : Tx → ℕ → List Bytes → Result (Node × Tx)
  delete_node_props t id names = do
    n ← get_node t id
    rewrite_node t n n.labels (drop_props n.props names)

  -- The end of `ReplaceEdgeProps` and `DeleteEdgeProps`.
  unfoldable pub rewrite_edge : Tx → EdgeRec → List Prop → Result (Edge × Tx)
  rewrite_edge t rec ps = do
    t1 ← ix.unindex_edge t rec.edge
    let e : Edge = record rec.edge { props = ps }
    t2 ← write_edge t1 (record rec { edge = e })
    ok (e, t2)

  unfoldable pub replace_edge_props : Tx → ℕ → Assoc Bytes Value → Result (Edge × Tx)
  replace_edge_props t id props = do
    rec ← load_edge t id
    (ps, u) ← assign_props t props
    rewrite_edge u rec ps

  unfoldable pub delete_edge_props : Tx → ℕ → List Bytes → Result (Edge × Tx)
  delete_edge_props t id names = do
    rec ← load_edge t id
    rewrite_edge t rec (drop_props rec.edge.props names)
