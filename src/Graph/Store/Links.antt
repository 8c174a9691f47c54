-- ===== src/Graph/Store/Links.antt =====
-- Each edge stands under its node keys: the invariant that joins keyspaces N, E, O, I and T, and what
-- the writes to them do to it.
pub mod Writes
use mini_graph_db.Prelude.{
  ℕ, ◌+◌, ◌^◌, ◌<◌, Bool, true, false, Option, none, some, List, [], ◌≡◌, ◌≢◌, refl, sym, ap, arith,
  ◌∙◌, if◌then◌else◌, ◌==◌, nat_eq, ◌&&◌, Bool-cases, inl, inr,
}
use mini_graph_db.Prelude.Bytes.{Bytes, bytes_eq, bytes_beq, bytes_beq_iff}
use mini_graph_db.Storage.{
  Keyspace, Result, ok, ks_node, ks_edge, ks_out, ks_in, ks_edge_type, ks_catalog,
}
use mini_graph_db.Txn.Backend.{Backend}
use mini_graph_db.Graph.{Prop}
use mini_graph_db.Graph.Keys.{
  id_key, out_key, in_key, type_key, catalog_key, cat_next_edge, parse_adj,
}
use mini_graph_db.Graph.Keys.Apart.{id_key-inj, parse_adj-out_key, in_key-out_key, type_key-inj}
use mini_graph_db.Graph.Names.{read_counter}
use mini_graph_db.Graph.Records.{encode_edge}
use mini_graph_db.Graph.Records.Ends.{Ends, FitEnds, encode_ends, encode_ends-inj}
use mini_graph_db.Graph.Indexing.{aside, Has, Kept}

abbrev pub out_of : Ends → ℕ → Bytes
out_of e id = out_key e.from e.type_id e.to id

abbrev pub in_of : Ends → ℕ → Bytes
in_of e id = in_key e.to e.type_id e.from id

abbrev pub type_of : Ends → ℕ → Bytes
type_of e id = type_key e.type_id id

-- The keys of an edge name it.
pub out_of-inj :
    (e e' : Ends) (id id' : ℕ)
    → FitEnds e
    → FitEnds e'
    → id < 2 ^ 64
    → id' < 2 ^ 64
    → out_of e id ≡ out_of e' id'
    → id ≡ id'
out_of-inj e e' id id' f f' h h' same =
    let a = parse_adj-out_key e.from e.type_id e.to id f.from_fits f.type_fits f.to_fits h in
    let a' =
      parse_adj-out_key e'.from e'.type_id e'.to id' f'.from_fits f'.type_fits f'.to_fits h' in
    ground (arith, a, a', ap parse_adj same)

pub in_of-inj :
    (e e' : Ends) (id id' : ℕ)
    → FitEnds e
    → FitEnds e'
    → id < 2 ^ 64
    → id' < 2 ^ 64
    → in_of e id ≡ in_of e' id'
    → id ≡ id'
unfolding in_key out_key
in_of-inj e e' id id' f f' h h' same =
    out_of-inj (record { from = e.to; to = e.from; type_id = e.type_id })
      (record { from = e'.to; to = e'.from; type_id = e'.type_id }) id id'
      (record { from_fits = f.to_fits; to_fits = f.from_fits; type_fits = f.type_fits })
      (record { from_fits = f'.to_fits; to_fits = f'.from_fits; type_fits = f'.type_fits }) h h'
      same

module _ (b : Backend) where
  open b use {Tx, view}

  -- The record of edge `id` in keyspace E.
  pub record IsEdge (t : Tx) (id : ℕ) (e : Ends) : Type 0 where
    pub props : List Prop
    pub at : view t ks_edge (id_key id) ≡ some (encode_ends e props)
    pub id_fits : id < 2 ^ 64
    pub fits : FitEnds e

  -- An edge with its keys in keyspaces O, I and T, and both its nodes.
  pub record IsJoined (t : Tx) (id : ℕ) (e : Ends) : Type 0 where
    pub out : Has b t ks_out (out_of e id)
    pub inward : Has b t ks_in (in_of e id)
    pub typed : Has b t ks_edge_type (type_of e id)
    pub from_node : Has b t ks_node (id_key e.from)
    pub to_node : Has b t ks_node (id_key e.to)

  -- A key that an edge has.
  abbrev pub OfEdge : Tx → (Ends → ℕ → Bytes) → Bytes → Type 0
  OfEdge t key k = (id : ℕ) × (e : Ends) × IsEdge t id e × (k ≡ key e id)

  pub record IsLinked (t : Tx) : Type 0 where
    pub edges : (k : Bytes) → Has b t ks_edge k → OfEdge t (λ _ id. id_key id) k
    pub joined : (id : ℕ) (e : Ends) → IsEdge t id e → IsJoined t id e
    pub outs : (k : Bytes) → Has b t ks_out k → OfEdge t out_of k
    pub ins : (k : Bytes) → Has b t ks_in k → OfEdge t in_of k
    pub types : (k : Bytes) → Has b t ks_edge_type k → OfEdge t type_of k
    -- The counter has given out every id that stands there.
    pub below :
        (next id : ℕ) (e : Ends)
        → read_counter b t cat_next_edge ≡ ok next
        → IsEdge t id e
        → id < next

  -- What the invariant reads is the same, but for the nodes and the counter.
  pub record SameEdges (t u : Tx) : Type 0 where
    pub edges : (k : Bytes) → view u ks_edge k ≡ view t ks_edge k
    pub outs : (k : Bytes) → view u ks_out k ≡ view t ks_out k
    pub ins : (k : Bytes) → view u ks_in k ≡ view t ks_in k
    pub types : (k : Bytes) → view u ks_edge_type k ≡ view t ks_edge_type k

  pub record SameGraph (t u : Tx) : Type 0 where
    pub nodes : (k : Bytes) → view u ks_node k ≡ view t ks_node k
    pub rest : SameEdges t u

  pub IsEdge-seen :
      (t u : Tx)
      → ((k : Bytes) → view u ks_edge k ≡ view t ks_edge k)
      → (id : ℕ) (e : Ends) → IsEdge t id e
      → IsEdge u id e
  IsEdge-seen t u seen id e x = record {
    props = x.props;
    at = seen _ ∙ x.at;
    id_fits = x.id_fits;
    fits = x.fits;
  }

  pub IsEdge-unique : (t : Tx) (id : ℕ) (e e' : Ends) → IsEdge t id e → IsEdge t id e' → e ≡ e'
  IsEdge-unique t id e e' x y =
      let same : some (encode_ends e x.props) ≡ some (encode_ends e' y.props) = sym x.at ∙ y.at in
      encode_ends-inj e e' x.props y.props x.fits y.fits (cc (same))

  -- A table with one key more, or one key less.
  abbrev pub With : Tx → Tx → Keyspace → Bytes → Option Bytes → Type 0
  With t u ks k o = (j : Bytes) → view u ks j ≡ (if k == j then o else view t ks j)

  pub Has-With :
      (t u : Tx) (ks : Keyspace) (k v j : Bytes)
      → With t u ks k (some v)
      → Has b t ks j
      → Has b u ks j
  Has-With t u ks k v j w (x, at) = elim (Bool-cases (k == j)) [
    | inl own ↦ (v, w j ∙ rw own refl)
    | inr other ↦ (x, w j ∙ rw other at)
  ]

  pub Has-own : (t u : Tx) (ks : Keyspace) (k v : Bytes) → With t u ks k (some v) → Has b u ks k
  Has-own t u ks k v w = (v, w k ∙ rw ((bytes_beq_iff k k).1 refl) refl)

  pub Has-without :
      (t u : Tx) (ks : Keyspace) (k j : Bytes)
      → With t u ks k none
      → k ≢ j
      → Has b t ks j
      → Has b u ks j
  Has-without t u ks k j w apart (x, at) = elim (Bool-cases (k == j)) [
    | inl own ↦ absurd (apart ((bytes_beq_iff k j).0 own))
    | inr other ↦ (x, w j ∙ rw other at)
  ]
