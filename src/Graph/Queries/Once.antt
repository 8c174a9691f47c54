-- ===== src/Graph/Queries/Once.antt =====
-- internal/storage/graphstore/store.go: a loop over keys lists no edge twice.
use mini_graph_db.Prelude.{
  ℕ, false, Option, none, some, List, [], ◌∷◌, ◌≡◌, refl, arith, ◌∙◌, leb, ◌==◌, nat_eq, Bool-cases,
  inl, inr,
}
use mini_graph_db.Prelude.Bytes.{Bytes, bytes_eq, bytes_beq_iff, compare_bytes_refl}
use mini_graph_db.Storage.{Keyspace, Result, ok, err, is_not_found}
use mini_graph_db.Storage.Ensures.{Ensures, Ensures-ok, Ensures-err, Ensures-bind, Ensures-itself}
use mini_graph_db.Memory.Snapshot.{Item}
use mini_graph_db.Memory.Snapshot.Items.{IsOrdered, AllAbove}
use mini_graph_db.Txn.Backend.{Backend}
use mini_graph_db.Txn.Versions.{has_prefix}
use mini_graph_db.Graph.{Edge}
use mini_graph_db.Graph.Indexing.{Indexing}
use mini_graph_db.Graph.Store.{contains, leading, scan_prefix, get_edge}
use mini_graph_db.Graph.Queries.{skip_missing, add_some, insert_by, sort_by, gather}
use mini_graph_db.Graph.Queries.Gather.{
  ids_of, is_id, look, contains-insert_by, contains-sort_by, get_edge-own, gather-IsGathered,
}

-- No id twice, and no key twice.
abbrev pub Once : List ℕ → Type 0
Once [] = Unit {0}
Once (i ∷ is) = (contains (λ x. x == i) is ≡ false) × Once is

abbrev pub OnceKeys : List Bytes → Type 0
OnceKeys [] = Unit {0}
OnceKeys (k ∷ keys) = (contains (λ x. x == k) keys ≡ false) × OnceKeys keys

abbrev pub OnceSome : List (Option ℕ) → Type 0
OnceSome [] = Unit {0}
OnceSome (none ∷ ids) = OnceSome ids
OnceSome (some j ∷ ids) = (contains (is_id j) ids ≡ false) × OnceSome ids

Once-insert_by :
    (e : Edge) (es : List Edge)
    → contains (λ x. x == e.id) (ids_of es) ≡ false
    → Once (ids_of es)
    → Once (ids_of (insert_by (λ x. x.id) e es))
unfolding insert_by contains
Once-insert_by e [] new once = (refl, tt)
Once-insert_by e (y ∷ es) new once = elim (Bool-cases (leb e.id y.id)) [
  | inl first ↦ rw first (new, once)
  | inr later ↦ rw later (
    contains-insert_by y.id e es ∙ ground (arith, new, once.0),
    Once-insert_by e es (ground (arith, new)) once.1,
  )
]

pub Once-sort_by : (es : List Edge) → Once (ids_of es) → Once (ids_of (sort_by (λ x. x.id) es))
unfolding sort_by
Once-sort_by [] once = once
Once-sort_by (e ∷ es) once =
    Once-insert_by e (sort_by (λ x. x.id) es) (contains-sort_by e.id es ∙ once.0)
      (Once-sort_by es once.1)

leading-new :
    (p k : Bytes) (items : List Item)
    → AllAbove k items
    → contains (λ x. x == k) (leading p items) ≡ false
unfolding leading contains
leading-new p k [] above = refl
leading-new p k ((j, v) ∷ items) above = elim (Bool-cases (j == k)) [
  | inl same ↦
      let own : j ≡ k = (bytes_beq_iff j k).0 same in
      absurd (cc (above.0, own, compare_bytes_refl k))
  | inr other ↦ elim (Bool-cases (has_prefix p j)) [
    | inl inside ↦ rw (inside, other) (leading-new p k items above.1)
    | inr outside ↦ rw outside refl
  ]
]

leading-OnceKeys : (p : Bytes) (items : List Item) → IsOrdered items → OnceKeys (leading p items)
unfolding leading
leading-OnceKeys p [] ordered = tt
leading-OnceKeys p ((k, v) ∷ items) ordered = elim (Bool-cases (has_prefix p k)) [
  | inl inside ↦ rw inside (leading-new p k items ordered.0, leading-OnceKeys p items ordered.1)
  | inr outside ↦ rw outside tt
]

-- What a read gives has the id that was asked for.
skip_missing-own :
    (j : ℕ) (r : Result Edge)
    → Ensures r (λ e. e.id ≡ j)
    → Ensures (skip_missing r) (λ o. (e : Edge) → o ≡ some e → e.id ≡ j)
skip_missing-own j (ok e) own =
    Ensures-ok (λ x at. let same : e ≡ x = cc (at) in rw (← same) (own.holds e refl))
skip_missing-own j (err x) own = elim (Bool-cases (is_not_found x)) [
  | inl missing ↦ rw missing (Ensures-ok (λ e at. absurd (cc (at))))
  | inr other ↦ rw other Ensures-err
]

add_some-Once :
    (j : ℕ) (o : Option Edge) (out : List Edge)
    → ((e : Edge) → o ≡ some e → e.id ≡ j)
    → contains (λ x. x == j) (ids_of out) ≡ false
    → Once (ids_of out)
    → Once (ids_of (add_some o out))
add_some-Once j none out own new once = once
add_some-Once j (some e) out own new once = (rw (own e refl) new, once)

module _ (b : Backend) (ix : Indexing b) where
  open b use {Tx, IsOpen}

  pub scan_prefix-OnceKeys :
      (t : Tx) (ks : Keyspace) (p : Bytes) → IsOpen t → Ensures (scan_prefix b ix t ks p) OnceKeys
  unfolding scan_prefix
  scan_prefix-OnceKeys t ks p o =
      let (items, scanned, ordered, holds) = b.scan_view t ks p o in
      rw scanned (Ensures-ok (leading-OnceKeys p items ordered))

  pub gather-Once :
      (t : Tx) (ids : List (Option ℕ))
      → OnceSome ids
      → Ensures (gather (look b ix t) ids) (λ out. Once (ids_of out))
  unfolding gather
  gather-Once t [] once = Ensures-ok tt
  gather-Once t (none ∷ ids) once = gather-Once t ids once
  gather-Once t (some j ∷ ids) once =
      Ensures-bind (skip_missing-own j (get_edge b ix t j) (get_edge-own b ix t j)) λ o own.
        Ensures-bind (Ensures-itself (gather (look b ix t) ids)) λ out done.
          let all =
            (gather-IsGathered b ix t j ids (λ h. absurd (cc (h, once.0)))).holds out done in
          let new : contains (λ x. x == j) (ids_of out) ≡ false =
            elim (Bool-cases (contains (λ x. x == j) (ids_of out))) [
              | inl listed ↦ absurd (cc (all.sound listed, once.0))
              | inr fresh ↦ fresh
            ] in
          Ensures-ok (add_some-Once j o out own new ((gather-Once t ids once.1).holds out done))
