-- ===== src/Graph/Store/Nodes/Writes.antt =====
-- internal/storage/graphstore/store.go: the writes of nodes keep the graph linked.
use mini_graph_db.Prelude.{ℕ, false, some, List, [], ◌≡◌, ◌≢◌, refl, sym, arith, ◌∙◌, ◌==◌, nat_eq}
use mini_graph_db.Prelude.Bytes.{Bytes, bytes_eq, bytes_beq_iff}
use mini_graph_db.Prelude.Assoc.{Assoc}
use mini_graph_db.Storage.{ks_node, ks_edge, ks_out, ks_in, ks_edge_type, ks_catalog}
use mini_graph_db.Storage.Ensures.{Ensures, Ensures-ok, Ensures-bind}
use mini_graph_db.Txn.Backend.{Backend}
use mini_graph_db.Value.{Value}
use mini_graph_db.Graph.{Prop, Node}
use mini_graph_db.Graph.Keys.{id_key, cat_next_edge}
use mini_graph_db.Graph.Names.{read_counter}
use mini_graph_db.Graph.Records.Ends.{Ends}
use mini_graph_db.Graph.Indexing.{Has, Kept, Indexing}
use mini_graph_db.Graph.Store.{write_node, update_node_with, rewrite_node, by_name}
use mini_graph_db.Graph.Store.Frames.{
  Kept-trans, Kept-refl, Written, put-Written, unindex_labels-Kept, unindex_props-Kept,
  intern_labels-Kept, index_labels-Kept, index_props-Kept, merge_props-Kept,
}
use mini_graph_db.Graph.Store.Links.{
  IsEdge, IsEdge-seen, IsLinked, SameEdges, SameGraph, Has-With, Has-own,
}
use mini_graph_db.Graph.Store.Links.Writes.{Has-same, SameEdges-IsLinked}
use mini_graph_db.Graph.Store.Reads.{read_counter-same, Kept-SameGraph, Kept-counter, Kept-IsLinked}
use mini_graph_db.Graph.Store.Edges.{kept}

other_bytes : (j k : Bytes) → j ≢ k → (j == k) ≡ false
other_bytes j k apart = ground (arith, bytes_beq_iff j k, apart)

module _ (b : Backend) (ix : Indexing b) where
  open b use {Tx, view, IsOpen}

  -- The same edges, and one node put.
  pub record NodeWritten (t u : Tx) (id : ℕ) : Type 0 where
    pub opened : IsOpen u
    pub linked : IsLinked b u
    pub stands : Has b u ks_node (id_key id)
    pub keeps : (i : ℕ) (f : Ends) → IsEdge b t i f → IsEdge b u i f
    pub back : (i : ℕ) (f : Ends) → IsEdge b u i f → IsEdge b t i f
    pub nodes : (k : Bytes) → id_key id ≢ k → view u ks_node k ≡ view t ks_node k
    pub counter : read_counter b u cat_next_edge ≡ read_counter b t cat_next_edge

  -- The put of a node.
  put-NodeWritten :
      (t u : Tx) (id : ℕ) (v : Bytes)
      → IsOpen t
      → IsLinked b t
      → Written b t ks_node (id_key id) (some v) u
      → NodeWritten t u id
  put-NodeWritten t u id v o l (ou, w) =
      let s : SameEdges b t u = record {
        edges = w ks_edge;
        outs = w ks_out;
        ins = w ks_in;
        types = w ks_edge_type;
      } in
      let counter = read_counter-same b t u cat_next_edge o ou (w ks_catalog _) in
      let stays : (k : Bytes) → Has b t ks_node k → Has b u ks_node k =
        λ k. Has-With b t u ks_node (id_key id) v k (w ks_node) in
      record {
        opened = ou;
        linked =
            SameEdges-IsLinked b t u s (λ i f x j. (stays _ j.from_node, stays _ j.to_node))
              (λ next n at all. all next (sym counter ∙ at)) l;
        stands = Has-own b t u ks_node (id_key id) v (w ks_node);
        keeps = IsEdge-seen b t u s.edges;
        back = IsEdge-seen b u t (λ k. sym (s.edges k));
        nodes = λ k apart. w ks_node k ∙ rw (other_bytes (id_key id) k apart) refl;
        counter = counter;
      }

  -- A graph that is the same where the invariant reads, before and after.
  pub NodeWritten-between :
      (t t1 t2 u : Tx) (id : ℕ)
      → SameGraph b t t1
      → read_counter b t1 cat_next_edge ≡ read_counter b t cat_next_edge
      → NodeWritten t1 t2 id
      → Kept b t2 u
      → NodeWritten t u id
  NodeWritten-between t t1 t2 u id s same r k =
      let later = Kept-SameGraph b t2 u k in
      record {
        opened = k.opened;
        linked = Kept-IsLinked b t2 u r.opened k r.linked;
        stands = Has-same b t2 u ks_node (id_key id) (later.nodes _) r.stands;
        keeps = λ i f x.
            IsEdge-seen b t2 u later.rest.edges i f
              (r.keeps i f (IsEdge-seen b t t1 s.rest.edges i f x));
        back = λ i f x.
            IsEdge-seen b t1 t (λ j. sym (s.rest.edges j)) i f
              (r.back i f (IsEdge-seen b u t2 (λ j. sym (later.rest.edges j)) i f x));
        nodes = λ j apart. later.nodes j ∙ r.nodes j apart ∙ s.nodes j;
        counter = Kept-counter b t2 u r.opened k ∙ r.counter ∙ same;
      }

  indexed : (t : Tx) (n : Node) → IsOpen t → Ensures (ix.index_node t n) (Kept b t)
  indexed t n o = kept b ix t (ix.index_node t n) (λ u. ix.index_node_kept t u n o)

  pub write_node-NodeWritten :
      (t : Tx) (n : Node)
      → IsOpen t
      → IsLinked b t
      → Ensures (write_node b ix t n) (λ u. NodeWritten t u n.id)
  unfolding write_node
  write_node-NodeWritten t n o l =
      Ensures-bind (intern_labels-Kept b ix t n.labels o) λ (lids, t1) k1.
        Ensures-bind (put-Written b t1 ks_node (id_key n.id) _ k1.opened) λ t2 w.
          Ensures-bind (index_labels-Kept b ix t2 n.id [] lids w.0) λ t3 k3.
            Ensures-bind (index_props-Kept b ix t3 n.id n.props k3.opened) λ t4 k4.
              Ensures-bind (indexed t4 n k4.opened) λ t5 k5. record {
                holds = λ u done.
                    let k6 = ix.bump_writes_kept t5 u k5.opened done in
                    NodeWritten-between t t1 t2 u n.id (Kept-SameGraph b t t1 k1)
                      (Kept-counter b t t1 o k1)
                      (put-NodeWritten t1 t2 n.id _ k1.opened (Kept-IsLinked b t t1 o k1 l) w)
                      (Kept-trans b k3 (Kept-trans b k4 (Kept-trans b k5 k6)));
              }

  -- Keys aside first.
  pub NodeWritten-behind :
      (t t1 u : Tx) (id : ℕ) → IsOpen t → Kept b t t1 → NodeWritten t1 u id → NodeWritten t u id
  NodeWritten-behind t t1 u id o k r =
      NodeWritten-between t t1 u u id (Kept-SameGraph b t t1 k) (Kept-counter b t t1 o k) r
        (Kept-refl b u r.opened)

  pub write_behind :
      (t t1 : Tx) (n : Node)
      → IsOpen t
      → IsLinked b t
      → Kept b t t1
      → Ensures (write_node b ix t1 n) (λ u. NodeWritten t u n.id)
  write_behind t t1 n o l k = record {
    holds = λ u done.
        NodeWritten-behind t t1 u n.id o k
          ((write_node-NodeWritten t1 n k.opened (Kept-IsLinked b t t1 o k l)).holds u done);
  }

  unindexed : (t : Tx) (n : Node) → IsOpen t → Ensures (ix.unindex_node t n) (Kept b t)
  unindexed t n o = kept b ix t (ix.unindex_node t n) (λ u. ix.unindex_node_kept t u n o)

  pub rewrite_node-NodeWritten :
      (t t1 : Tx) (n : Node) (labels : List Bytes) (props : List Prop)
      → IsOpen t
      → IsLinked b t
      → Kept b t t1
      → Ensures (rewrite_node b ix t1 n labels props) (λ x. NodeWritten t x.1 n.id)
  unfolding rewrite_node
  rewrite_node-NodeWritten t t1 n labels props o l k1 =
      Ensures-bind (unindex_labels-Kept b ix t1 n.id n.labels k1.opened) λ t2 k2.
        Ensures-bind (unindex_props-Kept b ix t2 n.id n.props k2.opened) λ t3 k3.
          Ensures-bind (unindexed t3 n k3.opened) λ t4 k4.
            Ensures-bind
              (write_behind t t4 _ o l (Kept-trans b k1 (Kept-trans b k2 (Kept-trans b k3 k4))))
              λ u r. Ensures-ok r

  pub update_node_with-NodeWritten :
      (t : Tx) (n : Node) (props : Assoc Bytes Value)
      → IsOpen t
      → IsLinked b t
      → Ensures (update_node_with b ix t n props) (λ x. NodeWritten t x.1 n.id)
  unfolding update_node_with
  update_node_with-NodeWritten t n props o l =
      Ensures-bind (unindex_props-Kept b ix t n.id n.props o) λ t1 k1.
        Ensures-bind (unindexed t1 n k1.opened) λ t2 k2.
          Ensures-bind (merge_props-Kept b ix t2 (by_name [] n.props) props k2.opened) λ ps k3.
            Ensures-bind (write_behind t ps.1 _ o l (Kept-trans b k1 (Kept-trans b k2 k3)))
              λ u r. Ensures-ok r
