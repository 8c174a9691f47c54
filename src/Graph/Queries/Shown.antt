-- ===== src/Graph/Queries/Shown.antt =====
-- internal/storage/graphstore/store.go: an edge that `GetEdge` returns is the one that stands in keyspace
-- E, with its names from the catalog.
use mini_graph_db.Prelude.{
  ℕ, Option, none, some, List, [], ◌∷◌, ◌≡◌, refl, arith, ◌∙◌, leb, nat_eq, Bool-cases, inl, inr,
  All,
}
use mini_graph_db.Prelude.Bytes.{Bytes}
use mini_graph_db.Storage.{Result, ok, err, ks_edge, is_not_found}
use mini_graph_db.Storage.Ensures.{Ensures, Ensures-ok, Ensures-err, Ensures-bind, Ensures-itself}
use mini_graph_db.Txn.Backend.{Backend}
use mini_graph_db.Graph.{Edge}
use mini_graph_db.Graph.Keys.{id_key, cat_type_rev}
use mini_graph_db.Graph.Names.{cat_name}
use mini_graph_db.Graph.Records.{DecodedEdge, decode_edge}
use mini_graph_db.Graph.Records.Ends.{Ends, decode_edge-ends, encode_ends}
use mini_graph_db.Graph.Indexing.{Indexing}
use mini_graph_db.Graph.Store.{contains, get_edge, load_edge, or_corrupt, fill_prop_names}
use mini_graph_db.Graph.Store.Links.{IsEdge}
use mini_graph_db.Graph.Store.Reads.{get-Ensures, or_missing-Ensures}
use mini_graph_db.Graph.Store.Scans.{HoldsId}
use mini_graph_db.Graph.Queries.{skip_missing, add_some, insert_by, sort_by, gather}
use mini_graph_db.Graph.Queries.Gather.{ids_of, look}

or_corrupt-Ensures : (o : Option Bytes) → Ensures (or_corrupt o) (λ name. o ≡ some name)
or_corrupt-Ensures none = Ensures-err
or_corrupt-Ensures (some name) = Ensures-ok refl

All-insert_by :
    (P : Edge → Type 0) (e : Edge) (es : List Edge)
    → P e
    → All P es
    → All P (insert_by (λ x. x.id) e es)
unfolding insert_by
All-insert_by P e [] h all = (h, all)
All-insert_by P e (y ∷ es) h all = elim (Bool-cases (leb e.id y.id)) [
  | inl first ↦ rw first (h, all)
  | inr later ↦ rw later (all.0, All-insert_by P e es h all.1)
]

pub All-sort_by : (P : Edge → Type 0) (es : List Edge) → All P es → All P (sort_by (λ x. x.id) es)
unfolding sort_by
All-sort_by P [] all = all
All-sort_by P (e ∷ es) all = All-insert_by P e _ all.0 (All-sort_by P es all.1)

-- Each edge of a list has its id there.
pub All-held :
    (P Q : Edge → Type 0) (es : List Edge)
    → ((e : Edge) → HoldsId e.id (ids_of es) → P e → Q e)
    → All P es
    → All Q es
unfolding contains
All-held P Q [] f all = tt
All-held P Q (e ∷ es) f all =
    (f e (ground arith) all.0, All-held P Q es (λ x h. f x (ground (arith, h))) all.1)

module _ (b : Backend) (ix : Indexing b) where
  open b use {Tx, view, IsOpen}

  -- The record of an edge in keyspace E, decoded, with the names of its type and its properties.
  pub record Shown (t : Tx) (e : Edge) : Type 0 where
    pub raw : Bytes
    pub at : view t ks_edge (id_key e.id) ≡ some raw
    pub dec : DecodedEdge
    pub decoded : decode_edge raw ≡ ok dec
    pub starts : e.from ≡ dec.from
    pub arrives : e.to ≡ dec.to
    pub labelled : cat_name b t cat_type_rev dec.type_id ≡ ok (some e.label)
    pub named : fill_prop_names b ix t dec.props ≡ ok e.props

  get_edge-Shown : (t : Tx) (id : ℕ) → IsOpen t → Ensures (get_edge b ix t id) (Shown t)
  unfolding get_edge load_edge
  get_edge-Shown t id o =
      Ensures-bind {P = λ rec. Shown t rec.edge}
        (rw (get-Ensures b t ks_edge (id_key id) o) (
          Ensures-bind (or_missing-Ensures (view t ks_edge (id_key id))) λ raw at.
            Ensures-bind (Ensures-itself (decode_edge raw)) λ dec decoded.
              Ensures-bind (Ensures-itself (cat_name b t cat_type_rev dec.type_id)) λ n found.
                Ensures-bind (or_corrupt-Ensures n) λ name is.
                  Ensures-bind (Ensures-itself (fill_prop_names b ix t dec.props)) λ ps named.
                    Ensures-ok record {
                      raw = raw;
                      at = at;
                      dec = dec;
                      decoded = decoded;
                      starts = refl;
                      arrives = refl;
                      labelled = cc (found, is);
                      named = named;
                    }))
        λ rec shown. Ensures-ok shown

  skip_missing-All :
      {P : Edge → Type 0} (r : Result Edge) (out : List Edge)
      → Ensures r P
      → All P out
      → Ensures (skip_missing r) (λ o. All P (add_some o out))
  skip_missing-All (ok e) out h all = Ensures-ok (h.holds e refl, all)
  skip_missing-All (err x) out h all = elim (Bool-cases (is_not_found x)) [
    | inl missing ↦ rw missing (Ensures-ok all)
    | inr other ↦ rw other Ensures-err
  ]

  pub gather-Shown :
      (t : Tx) (ids : List (Option ℕ))
      → IsOpen t
      → Ensures (gather (look b ix t) ids) (All (Shown t))
  unfolding gather
  gather-Shown t [] o = Ensures-ok tt
  gather-Shown t (none ∷ ids) o = gather-Shown t ids o
  gather-Shown t (some j ∷ ids) o = Ensures-bind (Ensures-itself (look b ix t j)) λ r looked.
      Ensures-bind (gather-Shown t ids o) λ out all.
        Ensures-ok
          ((skip_missing-All (get_edge b ix t j) out (get_edge-Shown t j o) all).holds r looked)

  -- An edge that is shown leads where its record says.
  pub Shown-ends :
      (t : Tx) (e : Edge) (f : Ends)
      → Shown t e
      → IsEdge b t e.id f
      → (e.from ≡ f.from) × (e.to ≡ f.to)
  Shown-ends t e f s x =
      let same : s.raw ≡ encode_ends f x.props = cc (s.at, x.at) in
      let ends = decode_edge-ends f x.props s.dec x.fits (rw (← same) s.decoded) in
      (s.starts ∙ ends.0, s.arrives ∙ ends.1)
