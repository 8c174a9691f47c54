-- ===== src/Graph/Store/Reads.antt =====
-- What the reads of graphstore have found when they return no error.
use mini_graph_db.Prelude.{
  ℕ, ◌+◌, ◌-◌, ◌^◌, ◌<◌, false, Option, none, some, [], ◌≡◌, refl, sym, arith, ◌∙◌, if◌then◌else◌,
  ◌==◌, nat_eq, ltb, length, Bool-cases, inl, inr,
}
use mini_graph_db.Prelude.Bytes.{
  Bytes, bytes_eq, bytes_beq, bytes_beq_iff, put_uint64, uint64, uint32-lt,
}
use mini_graph_db.Storage.{Keyspace, ok, ks_catalog, ks_node, ks_edge, ks_out, ks_in, ks_edge_type}
use mini_graph_db.Storage.Ensures.{Ensures, Ensures-ok, Ensures-err, Ensures-after, Ensures-bind}
use mini_graph_db.Memory.Engine.{found}
use mini_graph_db.Txn.Backend.{Backend}
use mini_graph_db.Value.Uvarint.{put_uvarint, put_groups}
use mini_graph_db.Graph.{EdgeRec}
use mini_graph_db.Graph.Keys.{catalog_key, id_key, cat_next_edge, cat_type_rev}
use mini_graph_db.Graph.Keys.Apart.{id_key-inj}
use mini_graph_db.Graph.Names.{
  maybe, counter_of, read_counter, write_counter, alloc, intern, intern_new, intern_found,
  id_of_raw, id_space, put_name, cat_name,
}
use mini_graph_db.Graph.Records.{decode_node, decode_edge}
use mini_graph_db.Graph.Records.Ends.{Ends, encode_ends, decode_edge-ends, SameEnds}
use mini_graph_db.Graph.Indexing.{aside, Has, Kept, Indexing}
use mini_graph_db.Graph.Store.{
  get_node, load_edge, or_missing, or_corrupt, label_names, fill_prop_names,
}
use mini_graph_db.Graph.Store.Frames.{put-Written}
use mini_graph_db.Graph.Store.Links.{IsEdge, IsLinked, SameGraph}
use mini_graph_db.Graph.Store.Links.Writes.{SameGraph-IsLinked}

abbrev pub ends_of : EdgeRec → Ends
ends_of r = record { from = r.edge.from; to = r.edge.to; type_id = r.type_id }

maybe-found : (o : Option Bytes) → maybe (found o) ≡ ok o
maybe-found none = refl
maybe-found (some raw) = refl

pub or_missing-Ensures : (o : Option Bytes) → Ensures (or_missing o) (λ raw. o ≡ some raw)
or_missing-Ensures none = Ensures-err
or_missing-Ensures (some raw) = Ensures-ok refl

graph_aside :
    (k : Bytes)
    → (aside ks_node k ≡ false)
      × (aside ks_edge k ≡ false)
      × (aside ks_out k ≡ false)
      × (aside ks_in k ≡ false)
      × (aside ks_edge_type k ≡ false)
unfolding aside
graph_aside k = (refl, refl, refl, refl, refl)

counter_aside : aside ks_catalog (catalog_key cat_next_edge []) ≡ false
unfolding aside catalog_key bytes_beq put_uvarint put_groups
counter_aside = refl

module _ (b : Backend) where
  open b use {Tx, view, IsOpen}

  pub get-Ensures :
      (t : Tx) (ks : Keyspace) (k : Bytes) → IsOpen t → maybe (b.get t ks k) ≡ ok (view t ks k)
  get-Ensures t ks k o = rw (b.get_view t ks k o) (maybe-found (view t ks k))

  -- A counter is what the catalog holds.
  pub read_counter-view :
      (t : Tx) (kind : ℕ)
      → IsOpen t
      → read_counter b t kind ≡ counter_of (view t ks_catalog (catalog_key kind []))
  unfolding read_counter
  read_counter-view t kind o = rw (get-Ensures t ks_catalog (catalog_key kind []) o) refl

  pub read_counter-same :
      (t u : Tx) (kind : ℕ)
      → IsOpen t
      → IsOpen u
      → view u ks_catalog (catalog_key kind []) ≡ view t ks_catalog (catalog_key kind [])
      → read_counter b u kind ≡ read_counter b t kind
  read_counter-same t u kind ot ou same =
      read_counter-view u kind ou ∙ rw same (sym (read_counter-view t kind ot))

  pub Kept-SameGraph : (t u : Tx) → Kept b t u → SameGraph b t u
  Kept-SameGraph t u k = record {
    nodes = λ j. k.same ks_node j (graph_aside j).0;
    rest = record {
      edges = λ j. k.same ks_edge j (graph_aside j).1;
      outs = λ j. k.same ks_out j (graph_aside j).2;
      ins = λ j. k.same ks_in j (graph_aside j).3;
      types = λ j. k.same ks_edge_type j (graph_aside j).4;
    };
  }

  pub Kept-counter :
      (t u : Tx)
      → IsOpen t
      → Kept b t u
      → read_counter b u cat_next_edge ≡ read_counter b t cat_next_edge
  Kept-counter t u o k =
      read_counter-same t u cat_next_edge o k.opened (k.same ks_catalog _ counter_aside)

  pub Kept-IsLinked : (t u : Tx) → IsOpen t → Kept b t u → IsLinked b t → IsLinked b u
  Kept-IsLinked t u o k =
      SameGraph-IsLinked b t u (Kept-SameGraph t u k)
        (λ next n at all. all next (sym (Kept-counter t u o k) ∙ at))

  counter_of-fits : (o : Option Bytes) → Ensures (counter_of o) (λ n. n < 2 ^ 64)
  counter_of-fits none = Ensures-ok (omega arith)
  counter_of-fits (some raw) = elim (Bool-cases (length raw == 8)) [
    | inl whole ↦ rw whole (Ensures-ok (omega arith))
    | inr part ↦ rw part Ensures-err
  ]

  counter-written : (n : ℕ) → n < 2 ^ 64 → counter_of (some (put_uint64 n)) ≡ ok n
  unfolding put_uint64 uint64
  counter-written n h = ground (arith, h)

  -- `alloc` gives the counter's number, and the counter moves on.
  pub record Allocated (t : Tx) (id : ℕ) (u : Tx) : Type 0 where
    pub opened : IsOpen u
    pub was : read_counter b t cat_next_edge ≡ ok id
    pub id_fits : id < 2 ^ 64
    pub graph : SameGraph b t u
    pub now : id + 1 < 2 ^ 64 → read_counter b u cat_next_edge ≡ ok (id + 1)

  pub alloc-Allocated :
      (t : Tx) → IsOpen t → Ensures (alloc b t cat_next_edge) (λ x. Allocated t x.0 x.1)
  unfolding alloc write_counter
  alloc-Allocated t o =
      Ensures-bind {P = λ n. (read_counter b t cat_next_edge ≡ ok n) × (n < 2 ^ 64)}
        (record {
          holds = λ n e. (
            e,
            (counter_of-fits (view t ks_catalog (catalog_key cat_next_edge []))).holds n
                (sym (read_counter-view t cat_next_edge o) ∙ e),
          );
        })
        λ n h.
          Ensures-bind
            (put-Written b t ks_catalog (catalog_key cat_next_edge []) (put_uint64 (n + 1)) o)
            λ u w. Ensures-ok (record {
              opened = w.0;
              was = h.0;
              id_fits = h.1;
              graph = record {
                nodes = λ k. w.1 ks_node k;
                rest = record {
                  edges = λ k. w.1 ks_edge k;
                  outs = λ k. w.1 ks_out k;
                  ins = λ k. w.1 ks_in k;
                  types = λ k. w.1 ks_edge_type k;
                };
              };
              now = λ fits.
                  read_counter-view u cat_next_edge w.0
                  ∙ rw
                      (
                        w.1 ks_catalog (catalog_key cat_next_edge []),
                        (bytes_beq_iff (catalog_key cat_next_edge [])
                              (catalog_key cat_next_edge [])).1
                            refl,
                      )
                      (counter-written (n + 1) fits);
            })

  -- An interned id is a uint32.
  pub intern-fits :
      (t : Tx) (kind rev counter : ℕ) (name : Bytes)
      → Ensures (intern b t kind rev counter name) (λ x. x.0 < 2 ^ 32)
  unfolding intern intern_new
  intern-fits t kind rev counter name =
      Ensures-after (maybe (b.get t ks_catalog (catalog_key kind name))) by_found
    where
      id_space-fits : (next : ℕ) → Ensures (id_space next) (λ _. next < 2 ^ 32)
      id_space-fits next = elim (Bool-cases (ltb (2 ^ 32 - 1) next)) [
        | inl over ↦ rw over Ensures-err
        | inr within ↦ rw within (Ensures-ok (ground (arith, within)))
      ]

      id_of_raw-fits : (raw : Bytes) → Ensures (id_of_raw raw) (λ id. id < 2 ^ 32)
      id_of_raw-fits raw = elim (Bool-cases (length raw == 4)) [
        | inl whole ↦ rw whole (Ensures-ok (uint32-lt raw))
        | inr part ↦ rw part Ensures-err
      ]

      by_found :
          (o : Option Bytes)
          → Ensures (intern_found b t kind rev counter name o) (λ x. x.0 < 2 ^ 32)
      by_found none = Ensures-after (read_counter b t counter) λ read.
          let next = if read == 0 then 1 else read in
          Ensures-bind (id_space-fits next) λ _ small.
            Ensures-after (put_name b t kind rev name next)
              λ u. Ensures-after (write_counter b u counter (next + 1)) λ v. Ensures-ok small
      by_found (some raw) = Ensures-bind (id_of_raw-fits raw) λ id small. Ensures-ok small

module _ (b : Backend) (ix : Indexing b) where
  open b use {Tx, view, IsOpen}

  pub get_node-Has :
      (t : Tx) (id : ℕ)
      → IsOpen t
      → Ensures (get_node b ix t id) (λ n. Has b t ks_node (id_key id) × (n.id ≡ id))
  unfolding get_node
  get_node-Has t id o = rw (get-Ensures b t ks_node (id_key id) o) (
      Ensures-bind (or_missing-Ensures (view t ks_node (id_key id))) λ raw at.
        Ensures-after (decode_node raw) λ dec.
          Ensures-after (label_names b ix t dec.label_ids) λ labels.
            Ensures-after (fill_prop_names b ix t dec.props) λ ps. Ensures-ok ((raw, at), refl))

  -- An edge that is read is the one that stands there.
  pub load_edge-IsEdge :
      (t : Tx) (id : ℕ)
      → IsOpen t
      → IsLinked b t
      → id < 2 ^ 64
      → Ensures (load_edge b ix t id) (λ rec. IsEdge b t id (ends_of rec) × (rec.edge.id ≡ id))
  unfolding load_edge
  load_edge-IsEdge t id o l fits = rw (get-Ensures b t ks_edge (id_key id) o) (
      Ensures-bind (or_missing-Ensures (view t ks_edge (id_key id))) λ raw at.
        let (i, e, x, same) = l.edges (id_key id) (raw, at) in
        let own : id ≡ i = id_key-inj id i fits x.id_fits same in
        let stands : raw ≡ encode_ends e x.props = cc (at, x.at, own) in
        let decoded : Ensures (decode_edge raw) (λ dec. SameEnds dec e) = record {
          holds = λ dec d. decode_edge-ends e x.props dec x.fits (rw stands at d);
        } in
        Ensures-bind decoded λ dec ends. Ensures-after (cat_name b t cat_type_rev dec.type_id) λ n.
          Ensures-after (or_corrupt n) λ name.
            Ensures-after (fill_prop_names b ix t dec.props)
              λ ps. Ensures-ok (rw (ends.0, ends.1, ends.2, own) (x, refl)))
