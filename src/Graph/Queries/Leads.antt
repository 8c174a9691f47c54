-- ===== src/Graph/Queries/Leads.antt =====
-- internal/storage/graphstore/store.go: which edges the keys that `EdgesBetween` scans name.
use mini_graph_db.Prelude.{
  ℕ, false, Option, none, some, List, [], ◌∷◌, map, ◌≡◌, refl, arith, ◌==◌, Bool-cases, inl, inr,
  nat_eq,
}
use mini_graph_db.Prelude.Bytes.{Bytes, bytes_eq, bytes_beq_iff}
use mini_graph_db.Storage.{ks_out}
use mini_graph_db.Txn.Backend.{Backend}
use mini_graph_db.Graph.Keys.{Adjacent, parse_adj}
use mini_graph_db.Graph.Keys.Apart.{parse_adj-out_key}
use mini_graph_db.Graph.Indexing.{Indexing, Has}
use mini_graph_db.Graph.Store.{contains}
use mini_graph_db.Graph.Store.Scans.{HoldsKey}
use mini_graph_db.Graph.Store.Links.{IsEdge-unique, IsLinked}
use mini_graph_db.Graph.Queries.{id_to}
use mini_graph_db.Graph.Queries.Once.{OnceKeys, OnceSome}
use mini_graph_db.Graph.Queries.Gather.{is_id, HoldsSome}

module _ (b : Backend) (ix : Indexing b) where
  open b use {Tx, view, IsOpen}

  abbrev pub named : ℕ → List Bytes → List (Option ℕ)
  named to keys = map (λ k. id_to to (parse_adj k)) keys

  -- A key of the list that names the edge to the node.
  abbrev Leads : ℕ → ℕ → List Bytes → Type 0
  Leads to i keys =
      (k : Bytes) × (adj : Adjacent) × HoldsKey k keys
      × (parse_adj k ≡ some adj)
      × (adj.b ≡ to)
      × (adj.edge_id ≡ i)

  named-Leads :
      (to i : ℕ) (j : Bytes) (keys : List Bytes) (o : Option Adjacent)
      → (HoldsSome i (named to keys) → Leads to i keys)
      → parse_adj j ≡ o
      → HoldsSome i (id_to to o ∷ named to keys)
      → Leads to i (j ∷ keys)
  unfolding contains
  named-Leads to i j keys none rest parsed h =
      let (k, adj, held, at, ends, same) = rest h in (k, adj, ground (arith, held), at, ends, same)
  named-Leads to i j keys (some adj) rest parsed h = elim (Bool-cases (adj.b == to)) [
    | inl arrives ↦ elim (Bool-cases (adj.edge_id == i)) [
      | inl own ↦ (
        j,
        adj,
        rw ((bytes_beq_iff j j).1 refl) refl,
        parsed,
        ground (arith, arrives),
        ground (arith, own),
      )
      | inr other ↦
          let (k, adj', held, at, ends, same) = rest (ground (arith, h, arrives, other)) in
          (k, adj', ground (arith, held), at, ends, same)
    ]
    | inr passes ↦
        let (k, adj', held, at, ends, same) = rest (ground (arith, h, passes)) in
        (k, adj', ground (arith, held), at, ends, same)
  ]

  pub all-Leads : (to i : ℕ) (keys : List Bytes) → HoldsSome i (named to keys) → Leads to i keys
  unfolding contains
  all-Leads to i [] h = absurd (cc (h))
  all-Leads to i (j ∷ keys) h = named-Leads to i j keys (parse_adj j) (all-Leads to i keys) refl h

  pub named-holds :
      (to : ℕ) (k : Bytes) (adj : Adjacent) (keys : List Bytes)
      → parse_adj k ≡ some adj
      → adj.b ≡ to
      → HoldsKey k keys
      → HoldsSome adj.edge_id (named to keys)
  unfolding contains
  named-holds to k adj [] parsed ends at = absurd (cc (at))
  named-holds to k adj (j ∷ keys) parsed ends at = elim (Bool-cases (j == k)) [
    | inl same ↦ rw ((bytes_beq_iff j k).0 same, parsed) (ground (arith, ends))
    | inr other ↦ ground (arith, named-holds to k adj keys parsed ends (ground (arith, at, other)))
  ]

  HoldsKey-later : (k j : Bytes) (keys : List Bytes) → HoldsKey j keys → HoldsKey j (k ∷ keys)
  unfolding contains
  HoldsKey-later k j keys held = ground (arith, held)

  HoldsKey-first : (k : Bytes) (keys : List Bytes) → HoldsKey k (k ∷ keys)
  unfolding contains
  HoldsKey-first k keys = rw ((bytes_beq_iff k k).1 refl) refl

  -- Keys of one edge are one key, so that keys without repeats name no edge twice.
  key_of-OnceSome :
      (t : Tx) (to : ℕ) (k : Bytes) (keys : List Bytes) (o : Option Adjacent)
      → IsLinked b t
      → ((j : Bytes) → HoldsKey j (k ∷ keys) → Has b t ks_out j)
      → contains (λ x. x == k) keys ≡ false
      → OnceSome (named to keys)
      → parse_adj k ≡ o
      → OnceSome (id_to to o ∷ named to keys)
  unfolding contains
  key_of-OnceSome t to k keys none l stored new rest parsed = rest
  key_of-OnceSome t to k keys (some adj) l stored new rest parsed =
      elim (Bool-cases (adj.b == to)) [
        | inr passes ↦ rw passes rest
        | inl arrives ↦ rw arrives (
          elim (Bool-cases (contains (is_id adj.edge_id) (named to keys))) [
            | inr fresh ↦ fresh
            | inl again ↦
                let (k', adj', held, parsed', ends, own) = all-Leads to adj.edge_id keys again in
                let (i, f, x, is_k) = l.outs k (stored k (HoldsKey-first k keys)) in
                let (i', f', x', is_k') = l.outs k' (stored k' (HoldsKey-later k k' keys held)) in
                let there =
                  parse_adj-out_key f.from f.type_id f.to i x.fits.from_fits x.fits.type_fits
                    x.fits.to_fits x.id_fits in
                let there' =
                  parse_adj-out_key f'.from f'.type_id f'.to i' x'.fits.from_fits x'.fits.type_fits
                    x'.fits.to_fits x'.id_fits in
                let same : i' ≡ i =
                  ground (arith, there, there', parsed, parsed', is_k, is_k', own) in
                let same_ends : f' ≡ f = IsEdge-unique b t i f' f (rw (← same) x') x in
                let same_key : k' ≡ k = cc (is_k, is_k', same, same_ends) in
                let own_held : HoldsKey k keys = rw (← same_key) held in absurd (cc (own_held, new))
          ],
          rest,
        )
      ]

  pub named-OnceSome :
      (t : Tx) (to : ℕ) (keys : List Bytes)
      → IsLinked b t
      → ((j : Bytes) → HoldsKey j keys → Has b t ks_out j)
      → OnceKeys keys
      → OnceSome (named to keys)
  unfolding contains
  named-OnceSome t to [] l stored once = tt
  named-OnceSome t to (k ∷ keys) l stored once =
      key_of-OnceSome t to k keys (parse_adj k) l stored once.0
        (named-OnceSome t to keys l (λ j h. stored j (ground (arith, h))) once.1) refl
