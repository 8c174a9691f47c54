-- ===== src/Graph/Store/Links/Writes.antt =====
-- The invariant under the writes of `writeEdge`, `DeleteEdge` and the node operations.
use mini_graph_db.Prelude.{
  ℕ, ◌^◌, ◌<◌, none, some, List, [], ◌≡◌, ◌≢◌, refl, sym, arith, ◌∙◌, ◌==◌, nat_eq, Bool-cases, inl,
  inr, ◌⊎◌,
}
use mini_graph_db.Prelude.Bytes.{Bytes, bytes_eq, bytes_beq_iff}
use mini_graph_db.Storage.{Keyspace, ok, ks_node, ks_edge, ks_out, ks_in, ks_edge_type}
use mini_graph_db.Txn.Backend.{Backend}
use mini_graph_db.Graph.{Prop}
use mini_graph_db.Graph.Keys.{id_key, cat_next_edge}
use mini_graph_db.Graph.Keys.Apart.{id_key-inj, type_key-inj}
use mini_graph_db.Graph.Names.{read_counter}
use mini_graph_db.Graph.Records.Ends.{Ends, FitEnds, encode_ends}
use mini_graph_db.Graph.Indexing.{Has}
use mini_graph_db.Graph.Store.Links.{
  out_of, in_of, type_of, out_of-inj, in_of-inj, IsEdge, IsJoined, OfEdge, IsLinked, SameEdges,
  SameGraph, IsEdge-seen, IsEdge-unique, With, Has-With, Has-own, Has-without,
}

module _ (b : Backend) where
  open b use {Tx, view}

  pub Has-same :
      (t u : Tx) (ks : Keyspace) (k : Bytes)
      → view u ks k ≡ view t ks k
      → Has b t ks k
      → Has b u ks k
  Has-same t u ks k same (x, at) = (x, same ∙ at)

  -- No edge changes, the nodes that edges join stay, and the counter may grow.
  module _ (t u : Tx) (s : SameEdges b t u)
      (nodes : (id : ℕ) (e : Ends)
        → IsEdge b t id e
        → IsJoined b t id e
        → Has b u ks_node (id_key e.from) × Has b u ks_node (id_key e.to))
      (grown : (next n : ℕ)
        → read_counter b u cat_next_edge ≡ ok next
        → ((next' : ℕ) → read_counter b t cat_next_edge ≡ ok next' → n < next')
        → n < next) where
    OfEdge-same : (key : Ends → ℕ → Bytes) (k : Bytes) → OfEdge b t key k → OfEdge b u key k
    OfEdge-same key k (id, e, x, same) = (id, e, IsEdge-seen b t u s.edges id e x, same)

    pub SameEdges-IsLinked : IsLinked b t → IsLinked b u
    SameEdges-IsLinked l =
        let back = IsEdge-seen b u t (λ k. sym (s.edges k)) in
        record {
          edges = λ k h. OfEdge-same _ k (l.edges k (Has-same u t ks_edge k (sym (s.edges k)) h));
          joined = λ id e x.
              let y = back id e x in
              let j = l.joined id e y in
              record {
                out = Has-same t u ks_out _ (s.outs _) j.out;
                inward = Has-same t u ks_in _ (s.ins _) j.inward;
                typed = Has-same t u ks_edge_type _ (s.types _) j.typed;
                from_node = (nodes id e y j).0;
                to_node = (nodes id e y j).1;
              };
          outs = λ k h. OfEdge-same _ k (l.outs k (Has-same u t ks_out k (sym (s.outs k)) h));
          ins = λ k h. OfEdge-same _ k (l.ins k (Has-same u t ks_in k (sym (s.ins k)) h));
          types =
              λ k h. OfEdge-same _ k (l.types k (Has-same u t ks_edge_type k (sym (s.types k)) h));
          below = λ next id e at x. grown next id at (λ n at'. l.below n id e at' (back id e x));
        }

  pub SameGraph-IsLinked :
      (t u : Tx)
      → SameGraph b t u
      → ((next n : ℕ)
          → read_counter b u cat_next_edge ≡ ok next
          → ((next' : ℕ) → read_counter b t cat_next_edge ≡ ok next' → n < next')
          → n < next)
      → IsLinked b t
      → IsLinked b u
  SameGraph-IsLinked t u s grown l =
      SameEdges-IsLinked t u s.rest
        (λ id e x j. (
          Has-same t u ks_node _ (s.nodes _) j.from_node,
          Has-same t u ks_node _ (s.nodes _) j.to_node,
        ))
        grown l

  -- What `writeEdge` leaves.
  pub record Added (t u : Tx) (id : ℕ) (e : Ends) (props : List Prop) : Type 0 where
    pub edges : With b t u ks_edge (id_key id) (some (encode_ends e props))
    pub outs : With b t u ks_out (out_of e id) (some [])
    pub ins : With b t u ks_in (in_of e id) (some [])
    pub types : With b t u ks_edge_type (type_of e id) (some [])
    pub nodes : (k : Bytes) → view u ks_node k ≡ view t ks_node k
    pub counter : read_counter b u cat_next_edge ≡ read_counter b t cat_next_edge

  module _ (t u : Tx) (id : ℕ) (e : Ends) (props : List Prop) (a : Added t u id e props)
      (id_fits : id < 2 ^ 64) (fits : FitEnds e)
      (replaces : (e' : Ends) → IsEdge b t id e' → e' ≡ e) where
    pub added : IsEdge b u id e
    added = record {
      props = props;
      at = a.edges (id_key id) ∙ rw ((bytes_beq_iff (id_key id) (id_key id)).1 refl) refl;
      id_fits = id_fits;
      fits = fits;
    }

    pub added-keeps : (i : ℕ) (f : Ends) → IsEdge b t i f → IsEdge b u i f
    added-keeps i f x = elim (Bool-cases (id_key id == id_key i)) [
      | inl own ↦
          let same : id ≡ i =
            id_key-inj id i id_fits x.id_fits ((bytes_beq_iff (id_key id) (id_key i)).0 own) in
          let ends : f ≡ e = replaces f (rw same x) in rw (← same, ends) added
      | inr other ↦ record {
        props = x.props;
        at = a.edges (id_key i) ∙ rw other x.at;
        id_fits = x.id_fits;
        fits = x.fits;
      }
    ]

    pub added-back : (i : ℕ) (f : Ends) → IsEdge b u i f → ((i ≡ id) × (f ≡ e)) ⊎ IsEdge b t i f
    added-back i f x = elim (Bool-cases (id_key id == id_key i)) [
      | inl own ↦
          let same : id ≡ i =
            id_key-inj id i id_fits x.id_fits ((bytes_beq_iff (id_key id) (id_key i)).0 own) in
          inl (sym same, IsEdge-unique b u i f e x (rw (← same) added))
      | inr other ↦ inr (record {
        props = x.props;
        at = sym (a.edges (id_key i) ∙ rw other refl) ∙ x.at;
        id_fits = x.id_fits;
        fits = x.fits;
      })
    ]

    -- The keys of one table after the write.
    added-of :
        (ks : Keyspace) (key : Ends → ℕ → Bytes) (v : Bytes)
        → With b t u ks (key e id) (some v)
        → ((k : Bytes) → Has b t ks k → OfEdge b t key k)
        → (k : Bytes) → Has b u ks k
        → OfEdge b u key k
    added-of ks key v w old k (x, at) = elim (Bool-cases (key e id == k)) [
      | inl own ↦ (id, e, added, sym ((bytes_beq_iff (key e id) k).0 own))
      | inr other ↦
          let (i, f, y, same) = old k (x, sym (w k ∙ rw other refl) ∙ at) in
          (i, f, added-keeps i f y, same)
    ]

    pub Added-IsLinked :
        IsLinked b t
        → Has b t ks_node (id_key e.from)
        → Has b t ks_node (id_key e.to)
        → ((next : ℕ) → read_counter b t cat_next_edge ≡ ok next → id < next)
        → IsLinked b u
    Added-IsLinked l from to given = record {
      edges = added-of ks_edge (λ _ i. id_key i) (encode_ends e props) a.edges l.edges;
      joined = λ i f x. elim (added-back i f x) [
        | inl (same, ends) ↦
            rw (same, ends)
              (record {
                out = Has-own b t u ks_out (out_of e id) [] a.outs;
                inward = Has-own b t u ks_in (in_of e id) [] a.ins;
                typed = Has-own b t u ks_edge_type (type_of e id) [] a.types;
                from_node = Has-same t u ks_node _ (a.nodes _) from;
                to_node = Has-same t u ks_node _ (a.nodes _) to;
              })
        | inr old ↦
            let j = l.joined i f old in
            record {
              out = Has-With b t u ks_out (out_of e id) [] _ a.outs j.out;
              inward = Has-With b t u ks_in (in_of e id) [] _ a.ins j.inward;
              typed = Has-With b t u ks_edge_type (type_of e id) [] _ a.types j.typed;
              from_node = Has-same t u ks_node _ (a.nodes _) j.from_node;
              to_node = Has-same t u ks_node _ (a.nodes _) j.to_node;
            }
      ];
      outs = added-of ks_out out_of [] a.outs l.outs;
      ins = added-of ks_in in_of [] a.ins l.ins;
      types = added-of ks_edge_type type_of [] a.types l.types;
      below = λ next i f at x. elim (added-back i f x) [
        | inl (same, ends) ↦ rw same (given next (sym a.counter ∙ at))
        | inr old ↦ l.below next i f (sym a.counter ∙ at) old
      ];
    }

  -- What `DeleteEdge` leaves.
  pub record Removed (t u : Tx) (id : ℕ) (e : Ends) : Type 0 where
    pub edges : With b t u ks_edge (id_key id) none
    pub outs : With b t u ks_out (out_of e id) none
    pub ins : With b t u ks_in (in_of e id) none
    pub types : With b t u ks_edge_type (type_of e id) none
    pub nodes : (k : Bytes) → view u ks_node k ≡ view t ks_node k
    pub counter : read_counter b u cat_next_edge ≡ read_counter b t cat_next_edge

  module _ (t u : Tx) (id : ℕ) (e : Ends) (r : Removed t u id e) (x : IsEdge b t id e) where
    -- The other edges stay, and there is none but them.
    pub removed-keeps : (i : ℕ) (f : Ends) → i ≢ id → IsEdge b t i f → IsEdge b u i f
    removed-keeps i f apart y = elim (Bool-cases (id_key id == id_key i)) [
      | inl own ↦ absurd (
          apart (
            sym
              (id_key-inj id i x.id_fits y.id_fits ((bytes_beq_iff (id_key id) (id_key i)).0 own))))
      | inr other ↦ record {
        props = y.props;
        at = r.edges (id_key i) ∙ rw other y.at;
        id_fits = y.id_fits;
        fits = y.fits;
      }
    ]

    pub removed-back : (i : ℕ) (f : Ends) → IsEdge b u i f → (i ≢ id) × IsEdge b t i f
    removed-back i f y = elim (Bool-cases (id_key id == id_key i)) [
      | inl own ↦ absurd (ground (arith, r.edges (id_key i), own, y.at))
      | inr other ↦ (
        λ same. absurd (ground (arith, other, same, bytes_beq_iff (id_key id) (id_key i))),
        record {
          props = y.props;
          at = sym (r.edges (id_key i) ∙ rw other refl) ∙ y.at;
          id_fits = y.id_fits;
          fits = y.fits;
        },
      )
    ]

    removed-of :
        (ks : Keyspace) (key : Ends → ℕ → Bytes)
        → With b t u ks (key e id) none
        → ((k : Bytes) → Has b t ks k → OfEdge b t key k)
        → (k : Bytes) → Has b u ks k
        → OfEdge b u key k
    removed-of ks key w old k (v, at) = elim (Bool-cases (key e id == k)) [
      | inl own ↦ absurd (ground (arith, w k, own, at))
      | inr other ↦
          let (i, f, y, same) = old k (v, sym (w k ∙ rw other refl) ∙ at) in
          let apart : i ≢ id = λ own.
            let ends : f ≡ e = IsEdge-unique b t id f e (rw own at y) x in
            ground (arith, other, same, own, ends, bytes_beq_iff (key e id) k) in
          (i, f, removed-keeps i f apart y, same)
    ]

    pub Removed-IsLinked : IsLinked b t → IsLinked b u
    Removed-IsLinked l = record {
      edges = removed-of ks_edge (λ _ i. id_key i) r.edges l.edges;
      joined = λ i f y.
          let (apart, z) = removed-back i f y in
          let j = l.joined i f z in
          record {
            out =
                Has-without b t u ks_out (out_of e id) (out_of f i) r.outs
                  (λ same. apart (sym (out_of-inj e f id i x.fits z.fits x.id_fits z.id_fits same)))
                  j.out;
            inward =
                Has-without b t u ks_in (in_of e id) (in_of f i) r.ins
                  (λ same. apart (sym (in_of-inj e f id i x.fits z.fits x.id_fits z.id_fits same)))
                  j.inward;
            typed =
                Has-without b t u ks_edge_type (type_of e id) (type_of f i) r.types
                  (λ same. apart (
                    sym
                      (type_key-inj e.type_id id f.type_id i x.fits.type_fits x.id_fits
                        z.fits.type_fits z.id_fits same).1))
                  j.typed;
            from_node = Has-same t u ks_node _ (r.nodes _) j.from_node;
            to_node = Has-same t u ks_node _ (r.nodes _) j.to_node;
          };
      outs = removed-of ks_out out_of r.outs l.outs;
      ins = removed-of ks_in in_of r.ins l.ins;
      types = removed-of ks_edge_type type_of r.types l.types;
      below = λ next i f at y.
          let (apart, z) = removed-back i f y in l.below next i f (sym r.counter ∙ at) z;
    }
