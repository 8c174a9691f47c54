-- ===== src/Graph/Store/Edges/Rewrite.antt =====
-- internal/storage/graphstore/store.go: `UpdateEdge`, `ReplaceEdgeProps` and `DeleteEdgeProps` keep the
-- graph linked.
use mini_graph_db.Prelude.{ℕ, ◌^◌, ◌<◌, List, [], ◌∷◌, ◌≡◌, refl, sym, ◌∙◌, nat_eq, inl, inr}
use mini_graph_db.Prelude.Bytes.{Bytes, bytes_eq}
use mini_graph_db.Prelude.Assoc.{Assoc}
use mini_graph_db.Storage.{Result, ks_node}
use mini_graph_db.Storage.Ensures.{Ensures, Ensures-ok, Ensures-bind}
use mini_graph_db.Txn.Backend.{Backend}
use mini_graph_db.Value.{Value}
use mini_graph_db.Graph.{Prop, Edge, EdgeRec}
use mini_graph_db.Graph.Keys.{cat_next_edge}
use mini_graph_db.Graph.Names.{read_counter}
use mini_graph_db.Graph.Records.Ends.{Ends}
use mini_graph_db.Graph.Indexing.{Kept, Indexing}
use mini_graph_db.Graph.Store.{
  write_edge, update_edge, update_edge_with, rewrite_edge, replace_edge_props, delete_edge_props,
  unless_empty,
}
use mini_graph_db.Graph.Store.Frames.{Kept-trans, Kept-refl, assign_props-Kept, merge_props-Kept}
use mini_graph_db.Graph.Store.Links.{IsEdge, IsEdge-seen, IsEdge-unique, IsLinked}
use mini_graph_db.Graph.Store.Links.Writes.{Added-IsLinked, added-keeps, added-keeps, added-back}
use mini_graph_db.Graph.Store.Reads.{
  ends_of, Kept-SameGraph, Kept-counter, Kept-IsLinked, load_edge-IsEdge,
}
use mini_graph_db.Graph.Store.Edges.{kept}
use mini_graph_db.Graph.Store.Edges.{write_edge-Added}

module _ (b : Backend) (ix : Indexing b) where
  open b use {Tx, view, IsOpen}

  -- The same edges on the same nodes.
  pub record Rewritten (t u : Tx) : Type 0 where
    pub opened : IsOpen u
    pub linked : IsLinked b u
    pub keeps : (i : ℕ) (f : Ends) → IsEdge b t i f → IsEdge b u i f
    pub back : (i : ℕ) (f : Ends) → IsEdge b u i f → IsEdge b t i f
    pub nodes : (k : Bytes) → view u ks_node k ≡ view t ks_node k
    pub counter : read_counter b u cat_next_edge ≡ read_counter b t cat_next_edge

  -- Keys aside change first.
  Rewritten-behind : (t t1 u : Tx) → IsOpen t → Kept b t t1 → Rewritten t1 u → Rewritten t u
  Rewritten-behind t t1 u o k r =
      let s = Kept-SameGraph b t t1 k in
      record {
        opened = r.opened;
        linked = r.linked;
        keeps = λ i f x. r.keeps i f (IsEdge-seen b t t1 s.rest.edges i f x);
        back = λ i f x. IsEdge-seen b t1 t (λ j. sym (s.rest.edges j)) i f (r.back i f x);
        nodes = λ j. r.nodes j ∙ s.nodes j;
        counter = r.counter ∙ Kept-counter b t t1 o k;
      }

  -- `writeEdge` of an edge that stands there.
  write_edge-Rewritten :
      (t : Tx) (rec : EdgeRec)
      → IsOpen t
      → IsLinked b t
      → IsEdge b t rec.edge.id (ends_of rec)
      → Ensures (write_edge b ix t rec) (Rewritten t)
  write_edge-Rewritten t rec o l x = record {
    holds = λ u done.
        let e = ends_of rec in
        let (ou, w) = (write_edge-Added b ix t rec o).holds u done in
        let same : (f : Ends) → IsEdge b t rec.edge.id f → f ≡ e =
          λ f y. IsEdge-unique b t rec.edge.id f e y x in
        let j = l.joined rec.edge.id e x in
        record {
          opened = ou;
          linked =
              Added-IsLinked b t u rec.edge.id e rec.edge.props w x.id_fits x.fits same l
                j.from_node j.to_node (λ next at. l.below next rec.edge.id e at x);
          keeps = added-keeps b t u rec.edge.id e rec.edge.props w x.id_fits x.fits same;
          back = λ i f y.
              elim (added-back b t u rec.edge.id e rec.edge.props w x.id_fits x.fits same i f y) [
                | inl (own, ends) ↦ rw (own, ends) x
                | inr old ↦ old
              ];
          nodes = w.nodes;
          counter = w.counter;
        };
  }

  -- The same with an edge's own ends, after calls that keep.
  own_write :
      (t t1 : Tx) (rec : EdgeRec) (props : List Prop)
      → IsOpen t
      → IsLinked b t
      → IsEdge b t rec.edge.id (ends_of rec)
      → Kept b t t1
      → Ensures
          (write_edge b ix t1 (record rec { edge = record rec.edge { props = props } }))
          (Rewritten t)
  own_write t t1 rec props o l x k =
      let s = Kept-SameGraph b t t1 k in
      let stands = IsEdge-seen b t t1 s.rest.edges rec.edge.id (ends_of rec) x in
      record {
        holds = λ u done.
            Rewritten-behind t t1 u o k (
              (write_edge-Rewritten t1 _ k.opened (Kept-IsLinked b t t1 o k l) stands).holds u
                done);
      }

  unindexed : (t : Tx) (e : Edge) → IsOpen t → Ensures (ix.unindex_edge t e) (Kept b t)
  unindexed t e o = kept b ix t (ix.unindex_edge t e) (λ u. ix.unindex_edge_kept t u e o)

  rewrite_edge-Rewritten :
      (t t1 : Tx) (rec : EdgeRec) (props : List Prop)
      → IsOpen t
      → IsLinked b t
      → IsEdge b t rec.edge.id (ends_of rec)
      → Kept b t t1
      → Ensures (rewrite_edge b ix t1 rec props) (λ x. Rewritten t x.1)
  unfolding rewrite_edge
  rewrite_edge-Rewritten t t1 rec props o l x k =
      Ensures-bind (unindexed t1 rec.edge k.opened) λ t2 k2.
        Ensures-bind (own_write t t2 rec props o l x (Kept-trans b k k2)) λ u r. Ensures-ok r

  update_edge_with-Rewritten :
      (t : Tx) (rec : EdgeRec) (props : Assoc Bytes Value)
      → IsOpen t
      → IsLinked b t
      → IsEdge b t rec.edge.id (ends_of rec)
      → Ensures (update_edge_with b ix t rec props) (λ x. Rewritten t x.1)
  unfolding update_edge_with
  update_edge_with-Rewritten t rec props o l x = Ensures-bind (unindexed t rec.edge o) λ t1 k.
      Ensures-bind (merge_props-Kept b ix t1 _ props k.opened) λ ps m.
        Ensures-bind (own_write t ps.1 rec ps.0 o l x (Kept-trans b k m)) λ u r. Ensures-ok r

  Rewritten-refl : (t : Tx) → IsOpen t → IsLinked b t → Rewritten t t
  Rewritten-refl t o l = record {
    opened = o;
    linked = l;
    keeps = λ i f x. x;
    back = λ i f x. x;
    nodes = λ j. refl;
    counter = refl;
  }

  unless_empty-Rewritten :
      (t : Tx) (props : Assoc Bytes Value) (r r' : Result (Edge × Tx))
      → Ensures r (λ x. Rewritten t x.1)
      → Ensures r' (λ x. Rewritten t x.1)
      → Ensures (unless_empty {A = Edge × Tx} props r r') (λ x. Rewritten t x.1)
  unless_empty-Rewritten t [] r r' h h' = h
  unless_empty-Rewritten t (p ∷ props) r r' h h' = h'

  -- The three ways to change the properties of an edge keep the graph linked, with the same edges
  -- between the same nodes. The transaction is open and the id is a uint64.
  pub edge_changes-Rewritten :
      (t : Tx) (id : ℕ) (props : Assoc Bytes Value) (names : List Bytes)
      → IsOpen t
      → IsLinked b t
      → id < 2 ^ 64
      → Ensures (update_edge b ix t id props) (λ x. Rewritten t x.1)
        × Ensures (replace_edge_props b ix t id props) (λ x. Rewritten t x.1)
        × Ensures (delete_edge_props b ix t id names) (λ x. Rewritten t x.1)
  unfolding update_edge replace_edge_props delete_edge_props
  edge_changes-Rewritten t id props names o l fits =
      let loaded = load_edge-IsEdge b ix t id o l fits in
      (
        Ensures-bind loaded λ rec x.
            unless_empty-Rewritten t props _ _ (Ensures-ok (Rewritten-refl t o l))
              (update_edge_with-Rewritten t rec props o l (rw x.1 x.0)),
        Ensures-bind loaded λ rec x.
            Ensures-bind (assign_props-Kept b ix t props o)
              λ ps k. rewrite_edge-Rewritten t ps.1 rec ps.0 o l (rw x.1 x.0) k,
        Ensures-bind loaded
            λ rec x. rewrite_edge-Rewritten t t rec _ o l (rw x.1 x.0) (Kept-refl b t o),
      )
