-- ===== src/Graph/Store/Edges/Create.antt =====
-- internal/storage/graphstore/store.go: `CreateEdge` keeps the graph linked.
use mini_graph_db.Prelude.{ℕ, ◌+◌, ◌^◌, ◌<◌, some, List, [], ◌≡◌, refl, sym, arith, ◌∙◌, nat_eq}
use mini_graph_db.Prelude.Bytes.{Bytes, bytes_eq}
use mini_graph_db.Prelude.Assoc.{Assoc}
use mini_graph_db.Storage.{ok, ks_node, ks_edge, ks_out, ks_in, ks_edge_type, ks_prop}
use mini_graph_db.Storage.Ensures.{Ensures, Ensures-ok, Ensures-bind, Ensures-itself, both-Ensures}
use mini_graph_db.Txn.Backend.{Backend}
use mini_graph_db.Value.{Value}
use mini_graph_db.Graph.{Prop, Edge, EdgeRec}
use mini_graph_db.Graph.Keys.{id_key, cat_next_edge, cat_edge_type, cat_type_rev, cat_next_type}
use mini_graph_db.Graph.Names.{read_counter, alloc, intern}
use mini_graph_db.Graph.Records.Ends.{Ends, FitEnds, encode_ends}
use mini_graph_db.Graph.Indexing.{Has, Kept, Indexing}
use mini_graph_db.Graph.Store.{write_edge, create_edge, assign_props}
use mini_graph_db.Graph.Store.Frames.{put-Written, assign_props-Kept, intern-Kept, types-AreAside}
use mini_graph_db.Graph.Store.Links.{
  IsEdge, IsEdge-seen, IsLinked, SameGraph, With, out_of, in_of, type_of,
}
use mini_graph_db.Graph.Store.Links.Writes.{
  Added, Added-IsLinked, added, added-keeps, SameGraph-IsLinked,
}
use mini_graph_db.Graph.Store.Reads.{
  Kept-SameGraph, Kept-counter, Kept-IsLinked, Allocated, alloc-Allocated, intern-fits,
  get_node-Has,
}
use mini_graph_db.Graph.Store.Edges.{write_edge-Added, seen-With}

module _ (b : Backend) (ix : Indexing b) where
  open b use {Tx, view, IsOpen}

  -- An edge that stands after a call beside all that stood before it.
  pub record Joined (t u : Tx) (id : ℕ) (e : Ends) : Type 0 where
    pub opened : IsOpen u
    pub linked : IsLinked b u
    pub stands : IsEdge b u id e
    -- The id is the counter's, which moves on.
    pub was : read_counter b t cat_next_edge ≡ ok id
    pub now : read_counter b u cat_next_edge ≡ ok (id + 1)
    pub new : (f : Ends) → ¬ IsEdge b t id f
    pub others : (i : ℕ) (f : Ends) → IsEdge b t i f → IsEdge b u i f

  -- The graph after the id is taken and names are interned.
  module _ (t1 t2 t3 : Tx) (id : ℕ) (l : IsLinked b t1) (a : Allocated b t1 id t2)
      (k : Kept b t2 t3) (room : id + 1 < 2 ^ 64) where
    taken_counter : read_counter b t3 cat_next_edge ≡ ok (id + 1)
    taken_counter = Kept-counter b t2 t3 a.opened k ∙ a.now room

    taken-seen : (j : Bytes) → view t3 ks_edge j ≡ view t1 ks_edge j
    taken-seen j = (Kept-SameGraph b t2 t3 k).rest.edges j ∙ a.graph.rest.edges j

    taken-IsLinked : IsLinked b t3
    taken-IsLinked = Kept-IsLinked b t2 t3 a.opened k (
        SameGraph-IsLinked b t1 t2 a.graph
          (λ next n at all.
            let past = all id a.was in let top = a.now room in ground (arith, past, top, at))
          l)

    taken-new : (f : Ends) → ¬ IsEdge b t1 id f
    taken-new f x = omega (arith, l.below id id f a.was x)

    taken-Joined :
        (u : Tx) (e : Ends) (props : List Prop)
        → FitEnds e
        → Has b t3 ks_node (id_key e.from)
        → Has b t3 ks_node (id_key e.to)
        → IsOpen u × Added b t3 u id e props
        → Joined t1 u id e
    taken-Joined u e props fits from to (o, w) =
        let free : (f : Ends) → IsEdge b t3 id f → f ≡ e =
          λ f x. absurd (taken-new f (IsEdge-seen b t3 t1 (λ j. sym (taken-seen j)) id f x)) in
        record {
          opened = o;
          linked =
              Added-IsLinked b t3 u id e props w a.id_fits fits free taken-IsLinked from to
                (λ next at. ground (arith, at, taken_counter));
          stands = added b t3 u id e props w a.id_fits fits free;
          was = a.was;
          now = w.counter ∙ taken_counter;
          new = taken-new;
          others = λ i f x.
              added-keeps b t3 u id e props w a.id_fits fits free i f
                (IsEdge-seen b t1 t3 taken-seen i f x);
        }

  -- The same, seen from a transaction before the first names are interned.
  Joined-behind :
      (t t1 u : Tx) (id : ℕ) (e : Ends)
      → IsOpen t
      → Kept b t t1
      → Joined t1 u id e
      → Joined t u id e
  Joined-behind t t1 u id e o k j =
      let seen = (Kept-SameGraph b t t1 k).rest.edges in
      record {
        opened = j.opened;
        linked = j.linked;
        stands = j.stands;
        was = sym (Kept-counter b t t1 o k) ∙ j.was;
        now = j.now;
        new = λ f x. j.new f (IsEdge-seen b t t1 seen id f x);
        others = λ i f x. j.others i f (IsEdge-seen b t t1 seen i f x);
      }

  node-Kept :
      (t t1 t2 t3 : Tx) (id : ℕ)
      → Kept b t t1
      → SameGraph b t1 t2
      → Kept b t2 t3
      → Has b t ks_node (id_key id)
      → Has b t3 ks_node (id_key id)
  node-Kept t t1 t2 t3 id k s m (x, at) =
      (x, (Kept-SameGraph b t2 t3 m).nodes _ ∙ s.nodes _ ∙ (Kept-SameGraph b t t1 k).nodes _ ∙ at)

  -- Tables E, O, I and T with the keys of one edge more, and else as they were.
  pub record Tables (t u : Tx) (id : ℕ) (e : Ends) (props : List Prop) : Type 0 where
    pub edges : With b t u ks_edge (id_key id) (some (encode_ends e props))
    pub outs : With b t u ks_out (out_of e id) (some [])
    pub ins : With b t u ks_in (in_of e id) (some [])
    pub types : With b t u ks_edge_type (type_of e id) (some [])
    pub nodes : (k : Bytes) → view u ks_node k ≡ view t ks_node k

  SameGraph-trans : (t u v : Tx) → SameGraph b t u → SameGraph b u v → SameGraph b t v
  SameGraph-trans t u v x y = record {
    nodes = λ j. y.nodes j ∙ x.nodes j;
    rest = record {
      edges = λ j. y.rest.edges j ∙ x.rest.edges j;
      outs = λ j. y.rest.outs j ∙ x.rest.outs j;
      ins = λ j. y.rest.ins j ∙ x.rest.ins j;
      types = λ j. y.rest.types j ∙ x.rest.types j;
    };
  }

  Added-Tables :
      (t t3 u : Tx) (id : ℕ) (e : Ends) (props : List Prop)
      → SameGraph b t t3
      → Added b t3 u id e props
      → Tables t u id e props
  Added-Tables t t3 u id e props s w = record {
    edges = seen-With b ix t t3 u u ks_edge _ _ s.rest.edges w.edges (λ j. refl);
    outs = seen-With b ix t t3 u u ks_out _ _ s.rest.outs w.outs (λ j. refl);
    ins = seen-With b ix t t3 u u ks_in _ _ s.rest.ins w.ins (λ j. refl);
    types = seen-With b ix t t3 u u ks_edge_type _ _ s.rest.types w.types (λ j. refl);
    nodes = λ j. w.nodes j ∙ s.nodes j;
  }

  -- Keyspace P is what the entries of an edge in the declared indexes leave.
  abbrev pub Filed : Tx → Tx → Edge → Type 0
  Filed t u e =
      (v : Tx) × (w : Tx) × ((k : Bytes) → view v ks_prop k ≡ view t ks_prop k)
      × (ix.index_edge v e ≡ ok w)
      × ((k : Bytes) → view u ks_prop k ≡ view w ks_prop k)

  write_edge-Filed :
      (t : Tx) (rec : EdgeRec)
      → IsOpen t
      → Ensures (write_edge b ix t rec) (λ u. Filed t u rec.edge)
  unfolding write_edge
  write_edge-Filed t rec o = Ensures-bind (put-Written b t ks_edge _ _ o) λ t1 w1.
      Ensures-bind (put-Written b t1 ks_out _ [] w1.0) λ t2 w2.
        Ensures-bind (put-Written b t2 ks_in _ [] w2.0) λ t3 w3.
          Ensures-bind (put-Written b t3 ks_edge_type _ [] w3.0) λ t4 w4.
            Ensures-bind (Ensures-itself (ix.index_edge t4 rec.edge)) λ t5 filed. record {
              holds = λ u done.
                  let k5 = ix.index_edge_kept t4 t5 rec.edge w4.0 filed in
                  (
                    t4,
                    t5,
                    λ k. w4.1 ks_prop k ∙ w3.1 ks_prop k ∙ w2.1 ks_prop k ∙ w1.1 ks_prop k,
                    filed,
                    λ k. (ix.bump_writes_only t5 u k5.opened done).rest ks_prop k refl,
                  );
            }

  -- The edge that a call has made of its arguments.
  pub record Created (t u : Tx) (from to : ℕ) (label : Bytes) (props : Assoc Bytes Value)
      (made : Edge) : Type 0 where
    pub starts : made.from ≡ from
    pub arrives : made.to ≡ to
    pub labelled : made.label ≡ label
    -- The properties are the given ones with their interned names, and the type is the label's.
    pub named : Tx
    pub assigned : assign_props b ix t props ≡ ok (made.props, named)
    pub taken : Tx
    pub allocated : alloc b named cat_next_edge ≡ ok (made.id, taken)
    pub typed : Tx
    pub type_id : ℕ
    pub interned :
        intern b taken cat_edge_type cat_type_rev cat_next_type label ≡ ok (type_id, typed)
    pub filed : Filed typed u made
    pub joined : Joined t u made.id (record { from = from; to = to; type_id = type_id })
    pub tables : Tables t u made.id (record { from = from; to = to; type_id = type_id }) made.props

  pub create_edge-Ensures :
      (t : Tx) (from to : ℕ) (label : Bytes) (props : Assoc Bytes Value)
      → IsOpen t
      → IsLinked b t
      → from < 2 ^ 64
      → to < 2 ^ 64
      → ((n : ℕ) → read_counter b t cat_next_edge ≡ ok n → n + 1 < 2 ^ 64)
      → Ensures
          (create_edge b ix t from to label props)
          (λ x. Created t x.1 from to label props x.0)
  unfolding create_edge
  create_edge-Ensures t from to label props o l from_fits to_fits room =
      Ensures-bind (get_node-Has b ix t from o) λ n has_from.
        Ensures-bind (get_node-Has b ix t to o) λ m has_to.
          Ensures-bind
            (both-Ensures (assign_props-Kept b ix t props o)
              (Ensures-itself (assign_props b ix t props)))
            λ ps k1.
              let l1 = Kept-IsLinked b t ps.1 o k1.0 l in
              Ensures-bind
                (both-Ensures (alloc-Allocated b ps.1 k1.0.opened)
                  (Ensures-itself (alloc b ps.1 cat_next_edge)))
                λ al aa.
                  let a = aa.0 in
                  let fits = room al.0 (sym (Kept-counter b t ps.1 o k1.0) ∙ a.was) in
                  Ensures-bind
                    (both-Ensures
                      (both-Ensures
                        (intern-Kept b cat_edge_type cat_type_rev cat_next_type types-AreAside al.1
                          label a.opened)
                        (intern-fits b al.1 cat_edge_type cat_type_rev cat_next_type label))
                      (Ensures-itself
                        (intern b al.1 cat_edge_type cat_type_rev cat_next_type label)))
                    λ ty k.
                      let k2 = k.0.0 in
                      Ensures-bind
                        (both-Ensures (write_edge-Added b ix ty.1 _ k2.opened)
                          (write_edge-Filed ty.1 _ k2.opened))
                        λ u written.
                          let w = written.0 in
                          Ensures-ok (record {
                            filed = written.1;
                            starts = refl;
                            arrives = refl;
                            labelled = refl;
                            named = ps.1;
                            assigned = k1.1;
                            taken = al.1;
                            allocated = aa.1;
                            typed = ty.1;
                            type_id = ty.0;
                            interned = k.1;
                            joined = Joined-behind t ps.1 u al.0 _ o k1.0 (
                                taken-Joined ps.1 al.1 ty.1 al.0 l1 a k2 fits u _ ps.0
                                  (record {
                                    from_fits = from_fits;
                                    to_fits = to_fits;
                                    type_fits = k.0.1;
                                  })
                                  (node-Kept t ps.1 al.1 ty.1 from k1.0 a.graph k2 has_from.0)
                                  (node-Kept t ps.1 al.1 ty.1 to k1.0 a.graph k2 has_to.0) w);
                            tables =
                                Added-Tables t ty.1 u al.0 _ ps.0
                                  (SameGraph-trans t al.1 ty.1
                                    (SameGraph-trans t ps.1 al.1 (Kept-SameGraph b t ps.1 k1.0)
                                      a.graph)
                                    (Kept-SameGraph b al.1 ty.1 k2))
                                  w.1;
                          })
