-- ===== src/Graph/Snapshot/Clear.antt =====
-- internal/storage/graphstore/store.go: `clearKeyspace` leaves nothing behind.
use mini_graph_db.Prelude.{
  Bool, true, Option, none, some, List, [], ◌∷◌, ◌≡◌, refl, arith, ◌∙◌, ◌&&◌, if◌then◌else◌, ◌==◌,
  Bool-cases, inl, inr, nat_eq,
}
use mini_graph_db.Prelude.Bytes.{Bytes, bytes_eq}
use mini_graph_db.Storage.{Keyspace, Result, ok}
use mini_graph_db.Txn.Backend.{Backend}
use mini_graph_db.Txn.Versions.{has_prefix}
use mini_graph_db.Graph.Indexing.{Indexing, Has}
use mini_graph_db.Graph.Store.{contains, scan_prefix, leading}
use mini_graph_db.Graph.Store.Scans.{HoldsKey, scan_prefix-holds}
use mini_graph_db.Graph.Snapshot.{delete_keys, clear_keyspace, clear_keyspaces}

module _ (b : Backend) (ix : Indexing b) where
  open b use {Tx, view, IsOpen}

  -- A call that succeeds and hides some keys.
  pub record Hides (t : Tx) (r : Result Tx) (hidden : Keyspace → Bytes → Bool) : Type 0 where
    pub left : Tx
    pub returns : r ≡ ok left
    pub opened : IsOpen left
    pub seen :
        (ks : Keyspace) (k : Bytes) → view left ks k ≡ (if hidden ks k then none else view t ks k)

  delete_keys-Hides :
      (t : Tx) (ks : Keyspace) (keys : List Bytes)
      → IsOpen t
      → Hides t (delete_keys b ix t ks keys) (λ js j. ks == js && contains (λ x. x == j) keys)
  unfolding delete_keys contains
  delete_keys-Hides t ks [] o = record {
    left = t;
    returns = refl;
    opened = o;
    seen = λ js j. ground arith;
  }
  delete_keys-Hides t ks (k ∷ keys) o =
      let (u, deletes, ou, seen) = b.delete_view t ks k o in
      let rest = delete_keys-Hides u ks keys ou in
      record {
        left = rest.left;
        returns = rw deletes rest.returns;
        opened = rest.opened;
        seen = λ js j.
            let later = rest.seen js j in let first = seen js j in ground (arith, later, first);
      }

  scanned :
      (t : Tx) (ks : Keyspace)
      → IsOpen t
      → (keys : List Bytes) × (scan_prefix b ix t ks [] ≡ ok keys)
        × ((k : Bytes) → Has b t ks k → HoldsKey k keys)
  unfolding scan_prefix has_prefix
  scanned t ks o =
      let (items, scans, ordered, holds) = b.scan_view t ks [] o in
      let returns : scan_prefix b ix t ks [] ≡ ok (leading [] items) = rw scans refl in
      (
        leading [] items,
        returns,
        λ k has. (scan_prefix-holds b ix t ks [] k o has refl).holds (leading [] items) returns,
      )

  all_keys :
      (t : Tx) (ks js : Keyspace) (j : Bytes) (keys : List Bytes)
      → ((k : Bytes) → Has b t ks k → HoldsKey k keys)
      → (if ks == js && contains (λ x. x == j) keys then none else view t js j)
        ≡ (if ks == js then none else view t js j)
  all_keys t ks js j keys held = elim (Bool-cases (ks == js)) [
    | inl own ↦
        let same : ks ≡ js = ground (arith, own) in
        by_view (view t js j) (λ v at. held j (v, rw same at)) own
    | inr other ↦ rw other refl
  ]
    where
      by_view :
          (o : Option Bytes)
          → ((v : Bytes) → o ≡ some v → HoldsKey j keys)
          → (ks == js) ≡ true
          → (if ks == js && contains (λ x. x == j) keys then none else o)
            ≡ (if ks == js then none else o)
      by_view none h own = ground arith
      by_view (some v) h own = rw (own, h v refl) refl

  clear_keyspace-Hides :
      (t : Tx) (ks : Keyspace) → IsOpen t → Hides t (clear_keyspace b ix t ks) (λ js j. ks == js)
  unfolding clear_keyspace
  clear_keyspace-Hides t ks o =
      let (keys, scans, held) = scanned t ks o in
      let d = delete_keys-Hides t ks keys o in
      record {
        left = d.left;
        returns = rw scans d.returns;
        opened = d.opened;
        seen = λ js j. d.seen js j ∙ all_keys t ks js j keys held;
      }

  -- The test of a list of keyspaces.
  abbrev pub among : Keyspace → List Keyspace → Bool
  among js spaces = contains (λ ks. ks == js) spaces

  -- Clearing keyspaces always succeeds, leaves no key in any of them, and changes no other. The
  -- transaction is open.
  pub clear_keyspaces-Hides :
      (t : Tx) (spaces : List Keyspace)
      → IsOpen t
      → Hides t (clear_keyspaces b ix t spaces) (λ js j. among js spaces)
  unfolding clear_keyspaces contains
  clear_keyspaces-Hides t [] o = record {
    left = t;
    returns = refl;
    opened = o;
    seen = λ js j. refl;
  }
  clear_keyspaces-Hides t (ks ∷ spaces) o =
      let first = clear_keyspace-Hides t ks o in
      let rest = clear_keyspaces-Hides first.left spaces first.opened in
      record {
        left = rest.left;
        returns = rw first.returns rest.returns;
        opened = rest.opened;
        seen = λ js j.
            let later = rest.seen js j in
            let sooner = first.seen js j in ground (arith, later, sooner);
      }
