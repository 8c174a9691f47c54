-- ===== src/Graph/Store/Edges/Delete.antt =====
-- internal/storage/graphstore/store.go: `DeleteEdge` keeps the graph linked.
use mini_graph_db.Prelude.{ℕ, ◌^◌, ◌<◌, false, none, ◌≡◌, ◌≢◌, refl, ◌∙◌, nat_eq}
use mini_graph_db.Prelude.Bytes.{Bytes, bytes_eq, bytes_beq_iff}
use mini_graph_db.Storage.{
  ok, ◌>>=◌, ks_node, ks_edge, ks_out, ks_in, ks_edge_type, ks_catalog, ks_prop, ks_label,
}
use mini_graph_db.Storage.Ensures.{Ensures, Ensures-bind, Ensures-itself, both-Ensures}
use mini_graph_db.Txn.Backend.{Backend}
use mini_graph_db.Graph.{EdgeRec}
use mini_graph_db.Graph.Keys.{id_key, out_key, in_key, type_key, cat_next_edge}
use mini_graph_db.Graph.Names.{read_counter}
use mini_graph_db.Graph.Records.Ends.{Ends}
use mini_graph_db.Graph.Indexing.{Kept, Only, Counted, NoMore, is_write_count, Indexing}
use mini_graph_db.Graph.Store.{load_edge, delete_edge}
use mini_graph_db.Graph.Store.Frames.{Kept-trans, delete-Written}
use mini_graph_db.Graph.Store.Links.{out_of, in_of, type_of, IsEdge, IsLinked}
use mini_graph_db.Graph.Store.Links.Writes.{Removed, Removed-IsLinked}
use mini_graph_db.Graph.Store.Reads.{
  ends_of, read_counter-same, Kept-SameGraph, Kept-counter, load_edge-IsEdge,
}
use mini_graph_db.Graph.Store.Links.Writes.{removed-keeps, removed-back}
use mini_graph_db.Graph.Store.Edges.{seen-With}

module _ (b : Backend) (ix : Indexing b) where
  open b use {Tx, view, IsOpen}

  -- The graph without one edge.
  pub record Gone (t u : Tx) (id : ℕ) : Type 0 where
    pub opened : IsOpen u
    pub linked : IsLinked b u
    pub absent : view u ks_edge (id_key id) ≡ none
    pub gone : (f : Ends) → ¬ IsEdge b u id f
    pub others : (i : ℕ) (f : Ends) → i ≢ id → IsEdge b t i f → IsEdge b u i f
    pub back : (i : ℕ) (f : Ends) → IsEdge b u i f → IsEdge b t i f
    pub nodes : (k : Bytes) → view u ks_node k ≡ view t ks_node k
    pub counter : read_counter b u cat_next_edge ≡ read_counter b t cat_next_edge
    -- The edge as it was read, and tables E, O, I and T without its four keys and else as they were.
    pub rec : EdgeRec
    pub loaded : load_edge b ix t id ≡ ok rec
    pub tables : Removed b t u id (ends_of rec)
    -- Keyspace P without the entries of the edge in declared indexes, and keyspace L as it was.
    pub entries :
        (v : Tx) × (ix.unindex_edge t rec.edge ≡ ok v)
        × ((k : Bytes) → view u ks_prop k ≡ view v ks_prop k)
        × NoMore b ks_prop t u
    pub labels : (k : Bytes) → view u ks_label k ≡ view t ks_label k
    -- Keyspace C but for the write count.
    pub names : (k : Bytes) → is_write_count k ≡ false → view u ks_catalog k ≡ view t ks_catalog k

  -- The tables seen from before the calls that keep them.
  Removed-behind :
      (t t2 u : Tx) (id : ℕ) (e : Ends)
      → IsOpen t
      → Kept b t t2
      → Removed b t2 u id e
      → Removed b t u id e
  Removed-behind t t2 u id e o k r =
      let s = Kept-SameGraph b t t2 k in
      record {
        edges = seen-With b ix t t2 u u ks_edge (id_key id) none s.rest.edges r.edges (λ j. refl);
        outs = seen-With b ix t t2 u u ks_out (out_of e id) none s.rest.outs r.outs (λ j. refl);
        ins = seen-With b ix t t2 u u ks_in (in_of e id) none s.rest.ins r.ins (λ j. refl);
        types =
            seen-With b ix t t2 u u ks_edge_type (type_of e id) none s.rest.types r.types
              (λ j. refl);
        nodes = λ j. r.nodes j ∙ s.nodes j;
        counter = r.counter ∙ Kept-counter b t t2 o k;
      }

  -- Keyspaces P, L and C are not touched by the four deletions.
  record Beside (t u : Tx) : Type 0 where
    pub props : (k : Bytes) → view u ks_prop k ≡ view t ks_prop k
    pub labels : (k : Bytes) → view u ks_label k ≡ view t ks_label k
    pub names : (k : Bytes) → view u ks_catalog k ≡ view t ks_catalog k

  Removed-after :
      (t t1 t2 u : Tx) (id : ℕ) (rec : EdgeRec)
      → IsOpen t
      → IsLinked b t
      → IsEdge b t id (ends_of rec)
      → load_edge b ix t id ≡ ok rec
      → ix.unindex_edge t rec.edge ≡ ok t1
      → Only b ks_prop t t1 × NoMore b ks_prop t t1
      → Counted b t1 t2
      → Kept b t t2
      → IsOpen u
      → Removed b t2 u id (ends_of rec)
      → Beside t2 u
      → Gone t u id
  Removed-after t t1 t2 u id rec o l x loaded un un_only bump k ou r beside =
      let e = ends_of rec in
      let all = Removed-behind t t2 u id e o k r in
      let entries : (j : Bytes) → view u ks_prop j ≡ view t1 ks_prop j =
        λ j. beside.props j ∙ bump.rest ks_prop j refl in
      record {
        opened = ou;
        linked = Removed-IsLinked b t u id e all x l;
        absent = all.edges (id_key id) ∙ rw ((bytes_beq_iff (id_key id) (id_key id)).1 refl) refl;
        gone = λ f z. (removed-back b t u id e all x id f z).0 refl;
        others = λ i f apart z. removed-keeps b t u id e all x i f apart z;
        back = λ i f z. (removed-back b t u id e all x i f z).1;
        nodes = all.nodes;
        counter = all.counter;
        rec = rec;
        loaded = loaded;
        tables = all;
        entries = (t1, un, entries, λ j none_there. entries j ∙ un_only.1 j none_there);
        labels = λ j. beside.labels j ∙ bump.rest ks_label j refl ∙ un_only.0.rest ks_label j refl;
        names = λ j h. beside.names j ∙ bump.rest ks_catalog j h ∙ un_only.0.rest ks_catalog j refl;
      }

  -- Four keys less.
  deletes-Removed :
      (t : Tx) (rec : EdgeRec)
      → IsOpen t
      → Ensures
          (b.delete t ks_out (out_key rec.edge.from rec.type_id rec.edge.to rec.edge.id) >>= λ t1.
            b.delete t1 ks_in (in_key rec.edge.to rec.type_id rec.edge.from rec.edge.id) >>= λ t2.
            b.delete t2 ks_edge_type (type_key rec.type_id rec.edge.id) >>= λ t3.
            b.delete t3 ks_edge (id_key rec.edge.id))
          (λ u. IsOpen u × Removed b t u rec.edge.id (ends_of rec) × Beside t u)
  deletes-Removed t rec o =
      let id = rec.edge.id in
      let e = ends_of rec in
      Ensures-bind (delete-Written b t ks_out (out_of e id) o) λ t1 w1.
        Ensures-bind (delete-Written b t1 ks_in (in_of e id) w1.0) λ t2 w2.
          Ensures-bind (delete-Written b t2 ks_edge_type (type_of e id) w2.0) λ t3 w3. record {
            holds = λ u done.
                let w4 = (delete-Written b t3 ks_edge (id_key id) w3.0).holds u done in
                (
                  w4.0,
                  record {
                    edges =
                        seen-With b ix t t3 u u ks_edge (id_key id) none
                          (λ j. w3.1 ks_edge j ∙ w2.1 ks_edge j ∙ w1.1 ks_edge j) (w4.1 ks_edge)
                          (λ j. refl);
                    outs =
                        seen-With b ix t t t1 u ks_out (out_of e id) none (λ j. refl) (w1.1 ks_out)
                          (λ j. w4.1 ks_out j ∙ w3.1 ks_out j ∙ w2.1 ks_out j);
                    ins =
                        seen-With b ix t t1 t2 u ks_in (in_of e id) none (w1.1 ks_in) (w2.1 ks_in)
                          (λ j. w4.1 ks_in j ∙ w3.1 ks_in j);
                    types =
                        seen-With b ix t t2 t3 u ks_edge_type (type_of e id) none
                          (λ j. w2.1 ks_edge_type j ∙ w1.1 ks_edge_type j) (w3.1 ks_edge_type)
                          (w4.1 ks_edge_type);
                    nodes = λ j. w4.1 ks_node j ∙ w3.1 ks_node j ∙ w2.1 ks_node j ∙ w1.1 ks_node j;
                    counter = read_counter-same b t u cat_next_edge o w4.0 (
                        w4.1 ks_catalog _
                        ∙ w3.1 ks_catalog _
                        ∙ w2.1 ks_catalog _
                        ∙ w1.1 ks_catalog _);
                  },
                  record {
                    props = λ j. w4.1 ks_prop j ∙ w3.1 ks_prop j ∙ w2.1 ks_prop j ∙ w1.1 ks_prop j;
                    labels =
                        λ j. w4.1 ks_label j ∙ w3.1 ks_label j ∙ w2.1 ks_label j ∙ w1.1 ks_label j;
                    names = λ j.
                        w4.1 ks_catalog j
                        ∙ w3.1 ks_catalog j
                        ∙ w2.1 ks_catalog j
                        ∙ w1.1 ks_catalog j;
                  },
                );
          }

  pub delete_edge-Ensures :
      (t : Tx) (id : ℕ)
      → IsOpen t
      → IsLinked b t
      → id < 2 ^ 64
      → Ensures (delete_edge b ix t id) (λ u. Gone t u id)
  unfolding delete_edge
  delete_edge-Ensures t id o l fits =
      Ensures-bind
        (both-Ensures (load_edge-IsEdge b ix t id o l fits) (Ensures-itself (load_edge b ix t id)))
        λ rec x. Ensures-bind (Ensures-itself (ix.unindex_edge t rec.edge)) λ t1 un.
          let k1 = ix.unindex_edge_kept t t1 rec.edge o un in
          Ensures-bind (Ensures-itself (ix.bump_writes t1)) λ t2 bump.
            let k = Kept-trans b k1 (ix.bump_writes_kept t1 t2 k1.opened bump) in
            record {
              holds = λ u done.
                  let (ou, r, beside) = (deletes-Removed t2 rec k.opened).holds u done in
                  Removed-after t t1 t2 u id rec o l x.0.0 x.1 un
                    (ix.unindex_edge_only t t1 rec.edge o un)
                    (ix.bump_writes_only t1 t2 k1.opened bump) k ou (rw (← x.0.1) r) beside;
            }
