-- ===== src/Graph/Store/Scans/Incident.antt =====
-- internal/storage/graphstore/store.go: `incidentEdges` gives the edges of a node, and no others.
use mini_graph_db.Prelude.{
  ℕ, ◌^◌, ◌<◌, true, Option, none, some, List, [], ◌∷◌, ◌≡◌, refl, sym, arith, ◌∙◌, ◌||◌, ◌==◌,
  Bool-cases, inl, inr, ◌⊎◌, nat_eq,
}
use mini_graph_db.Prelude.Bytes.{Bytes, bytes_eq, bytes_beq_iff}
use mini_graph_db.Prelude.Assoc.{lookup}
use mini_graph_db.Storage.{Keyspace, ok, ks_out, ks_in}
use mini_graph_db.Storage.Ensures.{Ensures, Ensures-ok, Ensures-bind}
use mini_graph_db.Memory.Snapshot.{Item}
use mini_graph_db.Txn.Backend.{Backend}
use mini_graph_db.Txn.Versions.{has_prefix}
use mini_graph_db.Graph.Keys.{Adjacent, parse_adj, id_key}
use mini_graph_db.Graph.Keys.Apart.{
  parse_adj-out_key, in_key-out_key, has_prefix-out_key, prefix_of-out_key,
}
use mini_graph_db.Graph.Indexing.{Indexing, Has}
use mini_graph_db.Graph.Store.{leading, contains, add_id, edge_ids, scan_prefix, incident_edges}
use mini_graph_db.Graph.Store.Scans.{HoldsKey, HoldsId, incident_edges-holds, contains-append}
use mini_graph_db.Graph.Store.Links.{out_of, in_of, IsEdge, IsLinked}
use mini_graph_db.Graph.Records.Ends.{Ends}

leading-prefix :
    (p k : Bytes) (items : List Item)
    → HoldsKey k (leading p items)
    → (has_prefix p k ≡ true) × (v : Bytes) × (lookup k items ≡ some v)
unfolding leading lookup contains
leading-prefix p k [] at = absurd (cc)
leading-prefix p k ((j, v) ∷ items) at = elim (Bool-cases (has_prefix p j)) [
  | inl in_prefix ↦ elim (Bool-cases (j == k)) [
    | inl own ↦ (rw (← (bytes_beq_iff j k).0 own) in_prefix, v, rw own refl)
    | inr other ↦
        let rest : HoldsKey k (leading p items) = ground (arith, at, in_prefix, other) in
        let (has, w, found) = leading-prefix p k items rest in (has, w, rw other found)
  ]
  | inr out ↦ absurd (ground (arith, at, out))
]

-- A key of the list that names the edge.
abbrev NamesId : ℕ → List Bytes → Type 0
NamesId id keys =
    (k : Bytes) × (adj : Adjacent) × HoldsKey k keys × (parse_adj k ≡ some adj) × (adj.edge_id ≡ id)

edge_ids-step :
    (id : ℕ) (j : Bytes) (keys : List Bytes) (o : Option Adjacent)
    → (HoldsId id (edge_ids keys) → NamesId id keys)
    → parse_adj j ≡ o
    → HoldsId id (add_id o (edge_ids keys))
    → NamesId id (j ∷ keys)
unfolding contains
edge_ids-step id j keys none rest parsed h =
    let (k, adj, held, at, same) = rest h in (k, adj, ground (arith, held), at, same)
edge_ids-step id j keys (some adj) rest parsed h = elim (Bool-cases (adj.edge_id == id)) [
  | inl own ↦ (j, adj, rw ((bytes_beq_iff j j).1 refl) refl, parsed, ground (arith, own))
  | inr other ↦
      let (k, adj', held, at, same) = rest (ground (arith, other, h)) in
      (k, adj', ground (arith, held), at, same)
]

edge_ids-parsed : (id : ℕ) (keys : List Bytes) → HoldsId id (edge_ids keys) → NamesId id keys
unfolding contains edge_ids
edge_ids-parsed id [] at = absurd (cc)
edge_ids-parsed id (j ∷ keys) at =
    edge_ids-step id j keys (parse_adj j) (edge_ids-parsed id keys) refl at

abbrev pub Touches : Ends → ℕ → Type 0
Touches f id = (f.from ≡ id) ⊎ (f.to ≡ id)

module _ (b : Backend) (ix : Indexing b) where
  open b use {Tx, view, IsOpen}

  pub scan_prefix_sound :
      (t : Tx) (ks : Keyspace) (p : Bytes)
      → IsOpen t
      → Ensures
          (scan_prefix b ix t ks p)
          (λ keys. (k : Bytes) → HoldsKey k keys → (has_prefix p k ≡ true) × Has b t ks k)
  unfolding scan_prefix
  scan_prefix_sound t ks p o =
      let (items, scanned, ordered, holds) = b.scan_view t ks p o in
      rw scanned (
        Ensures-ok (λ k h.
          let (has, v, found) = leading-prefix p k items h in
          (has, (v, ground (arith, found, holds k)))))

  -- An edge of the node.
  abbrev pub Stands : Tx → ℕ → ℕ → Type 0
  Stands t id i = (f : Ends) × IsEdge b t i f × Touches f id

  pub record IsIncident (t : Tx) (id : ℕ) (eids : List ℕ) : Type 0 where
    pub complete : (i : ℕ) (f : Ends) → IsEdge b t i f → Touches f id → HoldsId i eids
    pub sound : (i : ℕ) → HoldsId i eids → Stands t id i

  incident_edges_complete :
      (t : Tx) (id : ℕ)
      → IsOpen t
      → IsLinked b t
      → Ensures
          (incident_edges b ix t id)
          (λ eids. (i : ℕ) (f : Ends) → IsEdge b t i f → Touches f id → HoldsId i eids)
  incident_edges_complete t id o l = record {
    holds = λ eids done i f x touches.
        let j = l.joined i f x in
        elim touches [
          | inl from ↦
              (incident_edges-holds b ix t id (out_of f i)
                  (record { a = f.from; type_id = f.type_id; b = f.to; edge_id = i }) o (inl j.out)
                  (rw (← from) (has_prefix-out_key f.from f.type_id f.to i))
                  (parse_adj-out_key f.from f.type_id f.to i x.fits.from_fits x.fits.type_fits
                    x.fits.to_fits x.id_fits)).holds
                eids done
          | inr to ↦
              let same = in_key-out_key f.to f.type_id f.from i in
              (incident_edges-holds b ix t id (in_of f i)
                  (record { a = f.to; type_id = f.type_id; b = f.from; edge_id = i }) o
                  (inr j.inward) (rw (same, ← to) (has_prefix-out_key f.to f.type_id f.from i))
                  (rw same (
                    parse_adj-out_key f.to f.type_id f.from i x.fits.to_fits x.fits.type_fits
                      x.fits.from_fits x.id_fits))).holds
                eids done
        ];
  }

  out_id-Stands :
      (t : Tx) (id i : ℕ) (keys : List Bytes)
      → IsLinked b t
      → id < 2 ^ 64
      → ((k : Bytes) → HoldsKey k keys → (has_prefix (id_key id) k ≡ true) × Has b t ks_out k)
      → HoldsId i (edge_ids keys)
      → Stands t id i
  out_id-Stands t id i keys l fits held h =
      let (k, adj, at, parsed, own) = edge_ids-parsed i keys h in
      let (has, stored) = held k at in
      let (i', f, x, same) = l.outs k stored in
      let there =
        parse_adj-out_key f.from f.type_id f.to i' x.fits.from_fits x.fits.type_fits x.fits.to_fits
          x.id_fits in
      let is : i' ≡ i = ground (arith, there, parsed, same, own) in
      let from =
        prefix_of-out_key id f.from f.type_id f.to i' fits x.fits.from_fits (rw (← same) has) in
      (f, rw (← is) x, inl (sym from))

  in_id-Stands :
      (t : Tx) (id i : ℕ) (keys : List Bytes)
      → IsLinked b t
      → id < 2 ^ 64
      → ((k : Bytes) → HoldsKey k keys → (has_prefix (id_key id) k ≡ true) × Has b t ks_in k)
      → HoldsId i (edge_ids keys)
      → Stands t id i
  in_id-Stands t id i keys l fits held h =
      let (k, adj, at, parsed, own) = edge_ids-parsed i keys h in
      let (has, stored) = held k at in
      let (i', f, x, as_in) = l.ins k stored in
      let same = as_in ∙ in_key-out_key f.to f.type_id f.from i' in
      let there =
        parse_adj-out_key f.to f.type_id f.from i' x.fits.to_fits x.fits.type_fits x.fits.from_fits
          x.id_fits in
      let is : i' ≡ i = ground (arith, there, parsed, same, own) in
      let to =
        prefix_of-out_key id f.to f.type_id f.from i' fits x.fits.to_fits (rw (← same) has) in
      (f, rw (← is) x, inr (sym to))

  incident_edges_sound :
      (t : Tx) (id : ℕ)
      → IsOpen t
      → IsLinked b t
      → id < 2 ^ 64
      → Ensures (incident_edges b ix t id) (λ eids. (i : ℕ) → HoldsId i eids → Stands t id i)
  unfolding incident_edges
  incident_edges_sound t id o l fits =
      Ensures-bind (scan_prefix_sound t ks_out (id_key id) o) λ outs held_outs.
        Ensures-bind (scan_prefix_sound t ks_in (id_key id) o) λ ins held_ins. Ensures-ok λ i h.
          let both : (contains (λ x. x == i) (edge_ids outs)
                || contains (λ x. x == i) (edge_ids ins))
              ≡ true =
            sym (contains-append (λ x. x == i) (edge_ids outs) (edge_ids ins)) ∙ h in
          elim (Bool-cases (contains (λ x. x == i) (edge_ids outs))) [
            | inl out ↦ out_id-Stands t id i outs l fits held_outs out
            | inr none_out ↦
                in_id-Stands t id i ins l fits held_ins (ground (arith, both, none_out))
          ]

  pub incident_edges-Ensures :
      (t : Tx) (id : ℕ)
      → IsOpen t
      → IsLinked b t
      → id < 2 ^ 64
      → Ensures (incident_edges b ix t id) (IsIncident t id)
  incident_edges-Ensures t id o l fits = record {
    holds = λ eids done. record {
      complete = (incident_edges_complete t id o l).holds eids done;
      sound = (incident_edges_sound t id o l fits).holds eids done;
    };
  }

  -- The ids that `incidentEdges` returns are those of the edges that start or end at the node. The
  -- transaction is open and linked, and the id is a uint64.
  pub incident_edges-IsIncident :
      (t : Tx) (id : ℕ) (eids : List ℕ)
      → IsOpen t
      → IsLinked b t
      → id < 2 ^ 64
      → incident_edges b ix t id ≡ ok eids
      → IsIncident t id eids
  incident_edges-IsIncident t id eids o l fits done =
      (incident_edges-Ensures t id o l fits).holds eids done
