-- ===== src/Graph/Traverse/Reach/Outgoing.antt =====
-- internal/storage/graphstore/traverse.go: `outgoing` follows edges.
use mini_graph_db.Prelude.{
  ℕ, ◌^◌, ◌<◌, Option, none, some, List, [], ◌∷◌, ◌≡◌, refl, sym, arith, ◌==◌, Bool-cases, inl, inr,
  nat_eq,
}
use mini_graph_db.Prelude.Bytes.{Bytes, bytes_eq, bytes_beq_iff}
use mini_graph_db.Storage.{ks_out}
use mini_graph_db.Storage.Ensures.{Ensures, Ensures-ok, Ensures-bind}
use mini_graph_db.Txn.Backend.{Backend}
use mini_graph_db.Graph.Keys.{Adjacent, parse_adj, id_key}
use mini_graph_db.Graph.Keys.Apart.{parse_adj-out_key, prefix_of-out_key}
use mini_graph_db.Graph.Records.Ends.{Ends}
use mini_graph_db.Graph.Indexing.{Indexing}
use mini_graph_db.Graph.Store.{contains}
use mini_graph_db.Graph.Store.Scans.{HoldsKey, HoldsId}
use mini_graph_db.Graph.Store.Scans.Incident.{scan_prefix_sound}
use mini_graph_db.Graph.Store.Links.{IsEdge, IsLinked}
use mini_graph_db.Graph.Traverse.{add_to, to_ids, outgoing}

-- A key of the list that leads to the node.
abbrev LeadsTo : ℕ → List Bytes → Type 0
LeadsTo to keys =
    (k : Bytes) × (adj : Adjacent) × HoldsKey k keys × (parse_adj k ≡ some adj) × (adj.b ≡ to)

to_ids-step :
    (to : ℕ) (j : Bytes) (keys : List Bytes) (o : Option Adjacent)
    → (HoldsId to (to_ids keys) → LeadsTo to keys)
    → parse_adj j ≡ o
    → HoldsId to (add_to o (to_ids keys))
    → LeadsTo to (j ∷ keys)
unfolding contains
to_ids-step to j keys none rest parsed h =
    let (k, adj, held, at, same) = rest h in (k, adj, ground (arith, held), at, same)
to_ids-step to j keys (some adj) rest parsed h = elim (Bool-cases (adj.b == to)) [
  | inl own ↦ (j, adj, rw ((bytes_beq_iff j j).1 refl) refl, parsed, ground (arith, own))
  | inr other ↦
      let (k, adj', held, at, same) = rest (ground (arith, other, h)) in
      (k, adj', ground (arith, held), at, same)
]

to_ids-LeadsTo : (to : ℕ) (keys : List Bytes) → HoldsId to (to_ids keys) → LeadsTo to keys
unfolding contains to_ids
to_ids-LeadsTo to [] h = absurd (cc (h))
to_ids-LeadsTo to (j ∷ keys) h = to_ids-step to j keys (parse_adj j) (to_ids-LeadsTo to keys) refl h

module _ (b : Backend) where
  open b use {Tx}

  -- An edge from the one node to the other.
  abbrev pub Hop : Tx → ℕ → ℕ → Type 0
  Hop t from to = (i : ℕ) × (f : Ends) × IsEdge b t i f × (f.from ≡ from) × (f.to ≡ to)

  pub Hop-fits : (t : Tx) (from to : ℕ) → Hop t from to → to < 2 ^ 64
  Hop-fits t from to (i, f, x, starts, arrives) = rw (← arrives) x.fits.to_fits

module _ (b : Backend) (ix : Indexing b) where
  open b use {Tx, IsOpen}

  pub outgoing-Hop :
      (t : Tx) (from : ℕ)
      → IsOpen t
      → IsLinked b t
      → from < 2 ^ 64
      → Ensures (outgoing b ix t from) (λ tos. (to : ℕ) → HoldsId to tos → Hop b t from to)
  unfolding outgoing
  outgoing-Hop t from o l fits =
      Ensures-bind (scan_prefix_sound b ix t ks_out (id_key from) o) λ keys held. Ensures-ok λ to h.
        let (k, adj, at, parsed, arrives) = to_ids-LeadsTo to keys h in
        let (pre, stored) = held k at in
        let (i, f, x, same) = l.outs k stored in
        let there =
          parse_adj-out_key f.from f.type_id f.to i x.fits.from_fits x.fits.type_fits x.fits.to_fits
            x.id_fits in
        let ends : f.to ≡ to = ground (arith, there, parsed, same, arrives) in
        let starts =
          prefix_of-out_key from f.from f.type_id f.to i fits x.fits.from_fits (rw (← same) pre) in
        (i, f, x, sym starts, ends)
