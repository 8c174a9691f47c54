-- ===== src/Graph/Store/Nodes/Changes.antt =====
-- internal/storage/graphstore/store.go: `CreateNode`, `UpdateNode`, `AddLabels`, `RemoveLabels`,
-- `ReplaceNodeProps` and `DeleteNodeProps`.
use mini_graph_db.Prelude.{ℕ, ◌+◌, false, List, [], ◌∷◌, ◌≡◌, refl, sym, ◌∙◌, nat_eq}
use mini_graph_db.Prelude.Bytes.{Bytes, put_uint64, bytes_eq, bytes_beq}
use mini_graph_db.Prelude.Assoc.{Assoc}
use mini_graph_db.Storage.{Result, ks_node, ks_edge, ks_out, ks_in, ks_edge_type, ks_catalog}
use mini_graph_db.Storage.Ensures.{Ensures, Ensures-ok, Ensures-after, Ensures-bind}
use mini_graph_db.Txn.Backend.{Backend}
use mini_graph_db.Value.{Value}
use mini_graph_db.Graph.{Node}
use mini_graph_db.Graph.Keys.{catalog_key, id_key, cat_next_edge, cat_next_node}
use mini_graph_db.Graph.Names.{read_counter, write_counter, alloc}
use mini_graph_db.Graph.Indexing.{Has, Indexing}
use mini_graph_db.Graph.Store.{
  create_node, update_node, add_labels, remove_labels, replace_node_props, delete_node_props,
  unless_empty,
}
use mini_graph_db.Graph.Store.Frames.{Kept-refl, put-Written, assign_props-Kept}
use mini_graph_db.Graph.Store.Links.{IsLinked, SameGraph}
use mini_graph_db.Graph.Store.Links.Writes.{SameGraph-IsLinked, SameGraph-IsLinked}
use mini_graph_db.Graph.Store.Reads.{read_counter-same, Kept-IsLinked, get_node-Has}
use mini_graph_db.Graph.Store.Nodes.Writes.{
  NodeWritten, NodeWritten-behind, rewrite_node-NodeWritten, update_node_with-NodeWritten,
  write_node-NodeWritten, NodeWritten-between,
}

node_counter_apart :
    (bytes_beq (catalog_key cat_next_node []) (catalog_key cat_next_edge [])) ≡ false
unfolding catalog_key bytes_beq
node_counter_apart = refl

module _ (b : Backend) (ix : Indexing b) where
  open b use {Tx, view, IsOpen}

  -- `alloc` of a node id touches nothing the invariant reads.
  record NodeId (t u : Tx) : Type 0 where
    pub opened : IsOpen u
    pub graph : SameGraph b t u
    pub counter : read_counter b u cat_next_edge ≡ read_counter b t cat_next_edge

  alloc-NodeId : (t : Tx) → IsOpen t → Ensures (alloc b t cat_next_node) (λ x. NodeId t x.1)
  unfolding alloc write_counter
  alloc-NodeId t o = Ensures-after (read_counter b t cat_next_node) λ n.
      Ensures-bind
        (put-Written b t ks_catalog (catalog_key cat_next_node []) (put_uint64 (n + 1)) o)
        λ u w. Ensures-ok (record {
          opened = w.0;
          graph = record {
            nodes = w.1 ks_node;
            rest = record {
              edges = w.1 ks_edge;
              outs = w.1 ks_out;
              ins = w.1 ks_in;
              types = w.1 ks_edge_type;
            };
          };
          counter =
              read_counter-same b t u cat_next_edge o w.0
                (w.1 ks_catalog (catalog_key cat_next_edge []) ∙ rw node_counter_apart refl);
        })

  -- A node that is created stands there, all edges and all other nodes stay, and the graph stays
  -- linked. The transaction is open.
  pub create_node-NodeWritten :
      (t : Tx) (labels : List Bytes) (props : Assoc Bytes Value)
      → IsOpen t
      → IsLinked b t
      → Ensures (create_node b ix t labels props) (λ x. NodeWritten b ix t x.1 x.0.id)
  unfolding create_node
  create_node-NodeWritten t labels props o l =
      Ensures-bind (assign_props-Kept b ix t props o) λ (ps, t1) k1.
        Ensures-bind (alloc-NodeId t1 k1.opened) λ (id, t2) a.
          let l2 =
            SameGraph-IsLinked b t1 t2 a.graph (λ next n at all. all next (sym a.counter ∙ at))
              (Kept-IsLinked b t t1 o k1 l) in
          Ensures-bind (write_node-NodeWritten b ix t2 _ a.opened l2) λ u r. Ensures-ok (
            NodeWritten-behind b ix t t1 u id o k1
              (NodeWritten-between b ix t1 t2 u u id a.graph a.counter r (Kept-refl b u r.opened)))

  unless_empty-NodeWritten :
      (t : Tx) (id : ℕ) (props : Assoc Bytes Value) (r r' : Result (Node × Tx))
      → Ensures r (λ x. NodeWritten b ix t x.1 id)
      → Ensures r' (λ x. NodeWritten b ix t x.1 id)
      → Ensures (unless_empty props r r') (λ x. NodeWritten b ix t x.1 id)
  unless_empty-NodeWritten t id [] r r' h h' = h
  unless_empty-NodeWritten t id (p ∷ props) r r' h h' = h'

  NodeWritten-refl :
      (t : Tx) (id : ℕ)
      → IsOpen t
      → IsLinked b t
      → Has b t ks_node (id_key id)
      → NodeWritten b ix t t id
  NodeWritten-refl t id o l h = record {
    opened = o;
    linked = l;
    stands = h;
    keeps = λ i f x. x;
    back = λ i f x. x;
    nodes = λ k apart. refl;
    counter = refl;
  }

  -- The five ways to change a node keep it, all edges and all other nodes, and the graph stays linked.
  -- The transaction is open.
  pub node_changes-NodeWritten :
      (t : Tx) (id : ℕ) (props : Assoc Bytes Value) (names : List Bytes)
      → IsOpen t
      → IsLinked b t
      → Ensures (update_node b ix t id props) (λ x. NodeWritten b ix t x.1 id)
        × Ensures (add_labels b ix t id names) (λ x. NodeWritten b ix t x.1 id)
        × Ensures (remove_labels b ix t id names) (λ x. NodeWritten b ix t x.1 id)
        × Ensures (replace_node_props b ix t id props) (λ x. NodeWritten b ix t x.1 id)
        × Ensures (delete_node_props b ix t id names) (λ x. NodeWritten b ix t x.1 id)
  unfolding update_node add_labels remove_labels replace_node_props delete_node_props
  node_changes-NodeWritten t id props names o l =
      let read = get_node-Has b ix t id o in
      let k = Kept-refl b t o in
      (
        Ensures-bind read λ n h.
            unless_empty-NodeWritten t id props _ _ (Ensures-ok (NodeWritten-refl t id o l h.0))
              (rw (← h.1) (update_node_with-NodeWritten b ix t n props o l)),
        Ensures-bind read λ n h. rw (← h.1) (rewrite_node-NodeWritten b ix t t n _ _ o l k),
        Ensures-bind read λ n h. rw (← h.1) (rewrite_node-NodeWritten b ix t t n _ _ o l k),
        Ensures-bind read λ n h.
            Ensures-bind (assign_props-Kept b ix t props o)
              λ ps m. rw (← h.1) (rewrite_node-NodeWritten b ix t ps.1 n _ _ o l m),
        Ensures-bind read λ n h. rw (← h.1) (rewrite_node-NodeWritten b ix t t n _ _ o l k),
      )
