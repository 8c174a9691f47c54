-- ===== src/Graph/Queries/Missing.antt =====
-- internal/storage/graphstore/store.go: `loadEdge` says that an edge is missing only where there is no
-- record.
use mini_graph_db.Prelude.{
  ℕ, zero, suc, ◌^◌, ◌-◌, Bool, true, false, Option, none, some, List, [], ◌∷◌, ◌≡◌, refl,
  if◌then◌else◌, ltb, ◌==◌, nat_eq, Bool-cases, inl, inr, not, take, length,
}
use mini_graph_db.Prelude.Bytes.{Bytes}
use mini_graph_db.Storage.{
  Result, ok, err, ◌>>=◌, is_not_found, corruption, ks_edge, ks_catalog, Error,
}
use mini_graph_db.Txn.Backend.{Backend}
use mini_graph_db.Graph.{Prop}
use mini_graph_db.Value.Uvarint.{read_uvarint}
use mini_graph_db.Value.Record.{Decoded, done, fail, decode_record}
use mini_graph_db.Value.{Value}
use mini_graph_db.Graph.Keys.{id_key, rev_key, cat_prop_rev, cat_type_rev}
use mini_graph_db.Graph.Names.{cat_name}
use mini_graph_db.Graph.Records.{
  uvar, uvar32, read_byte, read_prop, read_props_of, read_props, decode_edge, all_read,
  check_version, enough, or_bad_value,
}
use mini_graph_db.Graph.Records
use mini_graph_db.Graph.Indexing.{Indexing}
use mini_graph_db.Graph.Store
use mini_graph_db.Graph.Store.{load_edge, get_edge, fill_prop_names, or_missing}
use mini_graph_db.Graph.Store.Reads.{get-Ensures}

-- A call whose errors are other ones.
pub record Found {A : Type 0} (r : Result A) : Type 0 where
  pub other : (e : Error) → r ≡ err e → is_not_found e ≡ false

Found-ok : {A : Type 0} {a : A} → Found (ok a)
Found-ok = record { other = λ e h. absurd (cc) }

Found-corrupt : {A : Type 0} → Found {A = A} (err corruption)
Found-corrupt = record { other = λ e h. let same : corruption ≡ e = cc in rw (← same) refl }

Found-bind :
    {A B : Type 0} (m : Result A) {f : A → Result B}
    → Found m
    → ((a : A) → Found (f a))
    → Found (m >>= f)
Found-bind (ok a) h k = k a
Found-bind (err e) h k = record {
  other = λ x at. let same : e ≡ x = cc in h.other x (rw same refl);
}

read_byte-Found : (b : Bytes) → Found (read_byte b)
unfolding read_byte
read_byte-Found [] = Found-corrupt
read_byte-Found (x ∷ b) = Found-ok

Records_or_corrupt-Found : {A : Type 0} (o : Option A) → Found (Records.or_corrupt o)
Records_or_corrupt-Found none = Found-corrupt
Records_or_corrupt-Found (some a) = Found-ok

uvar-Found : (b : Bytes) → Found (uvar b)
unfolding uvar
uvar-Found b = Records_or_corrupt-Found (read_uvarint b)

test-Found : {A : Type 0} (c : Bool) (a : A) → Found (if c then err corruption else ok a)
test-Found true a = Found-corrupt
test-Found false a = Found-ok

uvar32-Found : (b : Bytes) → Found (uvar32 b)
uvar32-Found b = Found-bind (uvar b) (uvar-Found b) λ x. test-Found (ltb (2 ^ 32 - 1) x.0) x

or_bad_value-Found : (d : Decoded Value) → Found (or_bad_value d)
or_bad_value-Found (fail e) = Found-corrupt
or_bad_value-Found (done v) = Found-ok

read_prop-Found : (b : Bytes) → Found (read_prop b)
unfolding read_prop
read_prop-Found b = Found-bind (uvar32 b) (uvar32-Found b) λ x.
    Found-bind (uvar x.1) (uvar-Found x.1) λ y.
      Found-bind (enough y.0 y.1) (test-Found (ltb (length y.1) y.0) tt) λ z.
        Found-bind (or_bad_value (decode_record (take y.0 y.1)))
          (or_bad_value-Found (decode_record (take y.0 y.1))) λ v. Found-ok

read_props_of-Found : (n : ℕ) (b : Bytes) → Found (read_props_of n b)
unfolding read_props_of
read_props_of-Found zero b = Found-ok
read_props_of-Found (suc n) b =
    Found-bind (read_prop b) (read_prop-Found b)
      λ x. Found-bind (read_props_of n x.1) (read_props_of-Found n x.1) λ y. Found-ok

all_read-Found : {A : Type 0} (a : A) (b : Bytes) → Found (all_read a b)
all_read-Found a [] = Found-ok
all_read-Found a (x ∷ b) = Found-corrupt

decode_edge-Found : (b : Bytes) → Found (decode_edge b)
unfolding decode_edge read_props
decode_edge-Found b = Found-bind (read_byte b) (read_byte-Found b) λ v.
    Found-bind (check_version v.0) (test-Found (not (v.0 == 1)) tt) λ _.
      Found-bind (uvar v.1) (uvar-Found v.1) λ x. Found-bind (uvar x.1) (uvar-Found x.1) λ y.
        Found-bind (uvar32 y.1) (uvar32-Found y.1) λ z.
          Found-bind (read_props z.1)
            (Found-bind (uvar z.1) (uvar-Found z.1) λ n. read_props_of-Found n.0 n.1)
            λ p. all_read-Found _ p.1

or_corrupt-Found : (o : Option Bytes) → Found (Store.or_corrupt o)
or_corrupt-Found none = Found-corrupt
or_corrupt-Found (some a) = Found-ok

module _ (b : Backend) (ix : Indexing b) where
  open b use {Tx, view, IsOpen}

  cat_name-Found : (t : Tx) (rev id : ℕ) → IsOpen t → Found (cat_name b t rev id)
  unfolding cat_name
  cat_name-Found t rev id o = elim (Bool-cases (id == 0)) [
    | inl no_id ↦ rw no_id Found-ok
    | inr named ↦ rw (named, get-Ensures b t ks_catalog (rev_key rev id) o) Found-ok
  ]

  fill_prop_names-Found :
      (t : Tx) (props : List Prop) → IsOpen t → Found (fill_prop_names b ix t props)
  unfolding fill_prop_names
  fill_prop_names-Found t [] o = Found-ok
  fill_prop_names-Found t (p ∷ props) o =
      Found-bind (cat_name b t cat_prop_rev p.id) (cat_name-Found t cat_prop_rev p.id o) λ n.
        Found-bind (Store.or_corrupt n) (or_corrupt-Found n) λ name.
          Found-bind (fill_prop_names b ix t props) (fill_prop_names-Found t props o)
            λ rest. Found-ok

  pub get_edge-Found :
      (t : Tx) (id : ℕ) (raw : Bytes)
      → IsOpen t
      → view t ks_edge (id_key id) ≡ some raw
      → Found (get_edge b ix t id)
  unfolding get_edge load_edge
  get_edge-Found t id raw o at =
      rw (get-Ensures b t ks_edge (id_key id) o, at)
        (Found-bind _
          (Found-bind (decode_edge raw) (decode_edge-Found raw) λ dec.
            Found-bind (cat_name b t cat_type_rev dec.type_id)
              (cat_name-Found t cat_type_rev dec.type_id o)
              λ n. Found-bind (Store.or_corrupt n) (or_corrupt-Found n) λ name.
                Found-bind (fill_prop_names b ix t dec.props) (fill_prop_names-Found t dec.props o)
                  λ ps. Found-ok)
          λ rec. Found-ok)
