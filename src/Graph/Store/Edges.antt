-- ===== src/Graph/Store/Edges.antt =====
-- internal/storage/graphstore/store.go: what `writeEdge` leaves.
pub mod Create
pub mod Delete
pub mod Rewrite
use mini_graph_db.Prelude.{
  ℕ, ◌+◌, ◌^◌, ◌<◌, Bool, true, false, Option, none, some, List, [], ◌∷◌, ◌≡◌, ◌≢◌, refl, sym, ap,
  arith, ◌∙◌, if◌then◌else◌, ◌==◌, nat_eq, ◌&&◌, ◌||◌, Bool-cases, inl, inr, ◌⊎◌,
}
use mini_graph_db.Prelude.Bytes.{Bytes, bytes_eq, bytes_beq, bytes_beq_iff}
use mini_graph_db.Prelude.Assoc.{Assoc}
use mini_graph_db.Storage.{
  Keyspace, Result, ok, ◌>>=◌, ks_node, ks_edge, ks_out, ks_in, ks_edge_type, ks_catalog,
}
use mini_graph_db.Storage.Ensures.{Ensures, Ensures-ok, Ensures-err, Ensures-after, Ensures-bind}
use mini_graph_db.Txn.Backend.{Backend}
use mini_graph_db.Value.{Value}
use mini_graph_db.Graph.{Prop, Node, Edge, EdgeRec}
use mini_graph_db.Graph.Keys.{
  id_key, out_key, in_key, type_key, cat_next_edge, cat_edge_type, cat_type_rev, cat_next_type,
}
use mini_graph_db.Graph.Names.{read_counter, alloc, intern}
use mini_graph_db.Graph.Records.{encode_edge}
use mini_graph_db.Graph.Records.Ends.{Ends, FitEnds, encode_ends}
use mini_graph_db.Graph.Indexing.{aside, Has, Kept, Indexing}
use mini_graph_db.Graph.Store.{
  write_edge, create_edge, delete_edge, get_node, load_edge, assign_props,
}
use mini_graph_db.Graph.Store.Frames.{
  Kept-trans, Kept-refl, put-Written, delete-Written, assign_props-Kept, intern-Kept,
  types-AreAside,
}
use mini_graph_db.Graph.Store.Links.{
  out_of, in_of, type_of, IsEdge, IsEdge-seen, IsLinked, SameGraph, With,
}
use mini_graph_db.Graph.Store.Links.Writes.{
  Added, Added-IsLinked, added, added-keeps, Removed, Removed-IsLinked, SameGraph-IsLinked,
}
use mini_graph_db.Graph.Store.Reads.{
  ends_of, read_counter-same, Kept-SameGraph, Kept-counter, Kept-IsLinked, Allocated,
  alloc-Allocated, intern-fits, get_node-Has, load_edge-IsEdge,
}

module _ (b : Backend) (ix : Indexing b) where
  open b use {Tx, view, IsOpen}

  -- A write between steps that leave its table alone.
  pub seen-With :
      (t t1 t2 u : Tx) (ks : Keyspace) (k : Bytes) (x : Option Bytes)
      → ((j : Bytes) → view t1 ks j ≡ view t ks j)
      → With b t1 t2 ks k x
      → ((j : Bytes) → view u ks j ≡ view t2 ks j)
      → With b t u ks k x
  seen-With t t1 t2 u ks k x before w after j =
      after j ∙ w j ∙ ap (λ y. if k == j then x else y) (before j)

  pub kept : (t : Tx) (r : Result Tx) → ((u : Tx) → r ≡ ok u → Kept b t u) → Ensures r (Kept b t)
  kept t r h = record { holds = h }

  -- What `writeEdge` leaves: four keys more.
  pub write_edge-Added :
      (t : Tx) (rec : EdgeRec)
      → IsOpen t
      → Ensures
          (write_edge b ix t rec)
          (λ u. IsOpen u × Added b t u rec.edge.id (ends_of rec) rec.edge.props)
  unfolding write_edge
  write_edge-Added t rec o =
      let id = rec.edge.id in
      let e = ends_of rec in
      Ensures-bind (put-Written b t ks_edge (id_key id) (encode_ends e rec.edge.props) o) λ t1 w1.
        Ensures-bind (put-Written b t1 ks_out (out_of e id) [] w1.0) λ t2 w2.
          Ensures-bind (put-Written b t2 ks_in (in_of e id) [] w2.0) λ t3 w3.
            Ensures-bind (put-Written b t3 ks_edge_type (type_of e id) [] w3.0) λ t4 w4.
              Ensures-bind
                (kept t4 (ix.index_edge t4 rec.edge) (λ u. ix.index_edge_kept t4 u rec.edge w4.0))
                λ t5 k5. record {
                  holds = λ u done.
                      let k = Kept-trans b k5 (ix.bump_writes_kept t5 u k5.opened done) in
                      let s = Kept-SameGraph b t4 u k in
                      let before : read_counter b t4 cat_next_edge
                          ≡ read_counter b t cat_next_edge =
                        read_counter-same b t t4 cat_next_edge o w4.0 (
                          w4.1 ks_catalog _
                          ∙ w3.1 ks_catalog _
                          ∙ w2.1 ks_catalog _
                          ∙ w1.1 ks_catalog _) in
                      (
                        k.opened,
                        record {
                          edges = λ j.
                              s.rest.edges j
                              ∙ w4.1 ks_edge j
                              ∙ w3.1 ks_edge j
                              ∙ w2.1 ks_edge j
                              ∙ w1.1 ks_edge j;
                          outs =
                              seen-With t t1 t2 u ks_out (out_of e id) (some []) (w1.1 ks_out)
                                (w2.1 ks_out) (λ j. s.rest.outs j ∙ w4.1 ks_out j ∙ w3.1 ks_out j);
                          ins =
                              seen-With t t2 t3 u ks_in (in_of e id) (some [])
                                (λ j. w2.1 ks_in j ∙ w1.1 ks_in j) (w3.1 ks_in)
                                (λ j. s.rest.ins j ∙ w4.1 ks_in j);
                          types =
                              seen-With t t3 t4 u ks_edge_type (type_of e id) (some [])
                                (λ j.
                                  w3.1 ks_edge_type j ∙ w2.1 ks_edge_type j ∙ w1.1 ks_edge_type j)
                                (w4.1 ks_edge_type) s.rest.types;
                          nodes = λ j.
                              s.nodes j
                              ∙ w4.1 ks_node j
                              ∙ w3.1 ks_node j
                              ∙ w2.1 ks_node j
                              ∙ w1.1 ks_node j;
                          counter = Kept-counter b t4 u w4.0 k ∙ before;
                        },
                      );
                }
