-- ===== src/Graph/Store/Scans.antt =====
-- `scanPrefix` and `incidentEdges` miss no key.
pub mod Incident
use mini_graph_db.Prelude.{
  ℕ, Bool, true, false, Option, none, some, List, [], ◌∷◌, ◌++◌, ◌≡◌, refl, arith, ◌∙◌, ◌||◌,
  if◌then◌else◌, ◌==◌, Bool-cases, Option-cases, inl, inr, ◌⊎◌, All, nat_eq,
}
use mini_graph_db.Prelude.Bytes.{
  Bytes, bytes_eq, bytes_beq_iff, compare_bytes, compare_bytes_refl, compare_bytes-flip,
}
use mini_graph_db.Prelude.Assoc.{lookup}
use mini_graph_db.Storage.{Keyspace, ok, ks_out, ks_in}
use mini_graph_db.Storage.Ensures.{Ensures, Ensures-ok, Ensures-after, Ensures-bind}
use mini_graph_db.Memory.Space.{at_least}
use mini_graph_db.Memory.Space.Keys.{IsBelow}
use mini_graph_db.Memory.Snapshot.{Item}
use mini_graph_db.Memory.Snapshot.Items.{IsOrdered, AllAbove}
use mini_graph_db.Txn.Backend.{Backend}
use mini_graph_db.Txn.Versions.{has_prefix}
use mini_graph_db.Txn.Versions.Scans.{above_prefix, lookup-below, All-lookup}
use mini_graph_db.Txn.Versions.Archive.{at_least-has_prefix}
use mini_graph_db.Graph.Keys.{Adjacent, parse_adj, id_key}
use mini_graph_db.Graph.Indexing.{Indexing, Has}
use mini_graph_db.Graph.Store.{leading, contains, add_id, edge_ids, scan_prefix, incident_edges}

abbrev pub HoldsKey : Bytes → List Bytes → Type 0
HoldsKey k keys = contains (λ x. x == k) keys ≡ true

abbrev pub HoldsId : ℕ → List ℕ → Type 0
HoldsId id ids = contains (λ x. x == id) ids ≡ true

leading-holds :
    (p k w : Bytes) (items : List Item)
    → IsOrdered items
    → All (λ x. at_least p x.0 ≡ true) items
    → lookup k items ≡ some w
    → has_prefix p k ≡ true
    → HoldsKey k (leading p items)
unfolding leading lookup contains
leading-holds p k w [] o all at has = cc
leading-holds p k w ((j, v) ∷ items) o all at has = elim (Bool-cases (has_prefix p j)) [
  | inl in_prefix ↦
      rw in_prefix (ground (arith, leading-holds p k w items o.1 all.1, at, has, bytes_beq_iff j k))
  | inr out ↦
      let below = lookup-below k j v items o.0 (above_prefix p j k all.0 out has) in
      absurd (unfold lookup in ground (arith, below, at))
]

pub contains-append {ℓ} :
    {A : Type ℓ} (same : A → Bool) (xs ys : List A)
    → contains same (xs ++ ys) ≡ (contains same xs || contains same ys)
unfolding contains
contains-append same [] ys = refl
contains-append same (x ∷ xs) ys = ground (arith, contains-append same xs ys)

add_id-holds :
    (id : ℕ) (o : Option Adjacent) (ids : List ℕ) → HoldsId id ids → HoldsId id (add_id o ids)
unfolding contains
add_id-holds id none ids at = at
add_id-holds id (some adj) ids at = ground (arith, at)

edge_ids-holds :
    (k : Bytes) (adj : Adjacent) (keys : List Bytes)
    → parse_adj k ≡ some adj
    → HoldsKey k keys
    → HoldsId adj.edge_id (edge_ids keys)
unfolding contains edge_ids
edge_ids-holds k adj [] parsed at = cc
edge_ids-holds k adj (j ∷ keys) parsed at = elim (Bool-cases (j == k)) [
  | inl same ↦ rw ((bytes_beq_iff j k).0 same, parsed) (ground arith)
  | inr other ↦
      add_id-holds adj.edge_id (parse_adj j) (edge_ids keys)
        (edge_ids-holds k adj keys parsed (ground (arith, at, other)))
]

module _ (b : Backend) (ix : Indexing b) where
  open b use {Tx, IsOpen}

  pub scan_prefix-holds :
      (t : Tx) (ks : Keyspace) (p k : Bytes)
      → IsOpen t
      → Has b t ks k
      → has_prefix p k ≡ true
      → Ensures (scan_prefix b ix t ks p) (HoldsKey k)
  unfolding scan_prefix
  scan_prefix-holds t ks p k o (w, at) has =
      let (items, scanned, ordered, holds) = b.scan_view t ks p o in
      let all =
        All-lookup (λ j v. at_least p j ≡ true) items ordered
          (λ j v e. elim (Bool-cases (at_least p j)) [
            | inl yes_at ↦ yes_at
            | inr no_at ↦ absurd (ground (arith, holds j, no_at, e))
          ]) in
      let found = holds k ∙ rw (at_least-has_prefix p k has, at) refl in
      rw scanned (Ensures-ok (leading-holds p k w items ordered all found has))

  -- The incident edges hold each edge whose key stands in keyspace O or I under the node.
  pub incident_edges-holds :
      (t : Tx) (id : ℕ) (k : Bytes) (adj : Adjacent)
      → IsOpen t
      → Has b t ks_out k ⊎ Has b t ks_in k
      → has_prefix (id_key id) k ≡ true
      → parse_adj k ≡ some adj
      → Ensures (incident_edges b ix t id) (HoldsId adj.edge_id)
  unfolding incident_edges
  incident_edges-holds t id k adj o (inl out) has parsed =
      Ensures-bind (scan_prefix-holds t ks_out (id_key id) k o out has) λ outs h.
        Ensures-after (scan_prefix b ix t ks_in (id_key id)) λ ins. Ensures-ok (
          contains-append (λ x. x == adj.edge_id) (edge_ids outs) (edge_ids ins)
          ∙ rw (edge_ids-holds k adj outs parsed h) refl)
  incident_edges-holds t id k adj o (inr inside) has parsed =
      Ensures-after (scan_prefix b ix t ks_out (id_key id)) λ outs.
        Ensures-bind (scan_prefix-holds t ks_in (id_key id) k o inside has) λ ins h. Ensures-ok (
          contains-append (λ x. x == adj.edge_id) (edge_ids outs) (edge_ids ins)
          ∙ ground (arith, edge_ids-holds k adj ins parsed h))
