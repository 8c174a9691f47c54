-- ===== src/Graph/Store/Frames.antt =====
-- What the helpers of store.go leave alone: names and indexes touch no node, edge or adjacency.
use mini_graph_db.Prelude.{
  ℕ, ◌+◌, true, false, Option, none, some, List, [], ◌∷◌, ◌≡◌, refl, arith, ◌∙◌, if◌then◌else◌,
  ◌==◌, nat_eq, ◌&&◌, Bool-cases, inl, inr,
}
use mini_graph_db.Prelude.Bytes.{Bytes, bytes_eq, bytes_beq, bytes_beq_iff, put_uint32, put_uint64}
use mini_graph_db.Prelude.Assoc.{Assoc}
use mini_graph_db.Storage.{Keyspace, Result, ks_catalog, ks_prop, ks_label}
use mini_graph_db.Storage.Ensures.{Ensures, Ensures-ok, Ensures-after, Ensures-bind}
use mini_graph_db.Txn.Backend.{Backend}
use mini_graph_db.Value.{Value}
use mini_graph_db.Graph.{Prop}
use mini_graph_db.Graph.Keys.{
  catalog_key, rev_key, cat_prop, cat_label, cat_edge_type, cat_next_prop, cat_next_label,
  cat_next_type, cat_prop_rev, cat_label_rev, cat_type_rev, label_key, prop_index_key,
}
use mini_graph_db.Graph.Names.{
  maybe, intern, intern_new, intern_found, id_of_raw, read_counter, write_counter, put_name,
  id_space, lookup_name,
}
use mini_graph_db.Graph.Indexing.{aside, Kept, Indexing}
use mini_graph_db.Graph.Store.{
  intern_labels, index_labels, unindex_label, unindex_labels, index_props, unindex_props,
  assign_all, assign_props, merge_props, check_storable, contains,
}

-- The kinds of one table of names stand aside.
pub record AreAside (kind rev counter : ℕ) : Type 0 where
  pub kind_aside : (name : Bytes) → aside ks_catalog (catalog_key kind name) ≡ true
  pub rev_aside : (id : ℕ) → aside ks_catalog (rev_key rev id) ≡ true
  pub counter_aside : aside ks_catalog (catalog_key counter []) ≡ true

module _ (b : Backend) where
  open b use {Tx, view, IsOpen}

  pub Kept-refl : (t : Tx) → IsOpen t → Kept b t t
  Kept-refl t o = record { opened = o; same = λ ks k h. refl }

  pub Kept-trans : {t u v : Tx} → Kept b t u → Kept b u v → Kept b t v
  Kept-trans x y = record { opened = y.opened; same = λ ks k h. y.same ks k h ∙ x.same ks k h }

  -- A call that keeps what is not aside.
  abbrev pub Keeps {ℓ} : {A : Type ℓ} → Tx → Result (A × Tx) → Type ℓ
  Keeps t r = Ensures r (λ x. Kept b t x.1)

  abbrev pub KeepsTx : Tx → Result Tx → Type 0
  KeepsTx t r = Ensures r (Kept b t)

  -- What a write to one key gives, and what a deletion of one gives.
  abbrev pub Written : Tx → Keyspace → Bytes → Option Bytes → Tx → Type 0
  Written t ks k o u =
      IsOpen u
      × ((js : Keyspace) (j : Bytes)
          → view u js j ≡ (if ks == js && k == j then o else view t js j))

  pub put-Written :
      (t : Tx) (ks : Keyspace) (k v : Bytes)
      → IsOpen t
      → Ensures (b.put t ks k v) (Written t ks k (some v))
  put-Written t ks k v o =
      let (u, puts, ou, seen) = b.put_view t ks k v o in rw puts (Ensures-ok (ou, seen))

  pub delete-Written :
      (t : Tx) (ks : Keyspace) (k : Bytes)
      → IsOpen t
      → Ensures (b.delete t ks k) (Written t ks k none)
  delete-Written t ks k o =
      let (u, deletes, ou, seen) = b.delete_view t ks k o in rw deletes (Ensures-ok (ou, seen))

  other_key :
      (js ks : Keyspace) (j k : Bytes)
      → aside js j ≡ true
      → aside ks k ≡ false
      → (js == ks && j == k) ≡ false
  other_key js ks j k h n = ground (arith, bytes_beq_iff j k, h, n)

  pub put-Kept :
      (t : Tx) (ks : Keyspace) (k v : Bytes)
      → IsOpen t
      → aside ks k ≡ true
      → KeepsTx t (b.put t ks k v)
  put-Kept t ks k v o h = record {
    holds = λ u puts.
        let (ou, seen) = (put-Written t ks k v o).holds u puts in
        record { opened = ou; same = λ js j n. seen js j ∙ rw (other_key ks js k j h n) refl };
  }

  pub delete-Kept :
      (t : Tx) (ks : Keyspace) (k : Bytes)
      → IsOpen t
      → aside ks k ≡ true
      → KeepsTx t (b.delete t ks k)
  delete-Kept t ks k o h = record {
    holds = λ u deletes.
        let (ou, seen) = (delete-Written t ks k o).holds u deletes in
        record { opened = ou; same = λ js j n. seen js j ∙ rw (other_key ks js k j h n) refl };
  }

  -- A step behind calls that keep.
  pub then_Kept {ℓ} :
      {A : Type ℓ} {t u : Tx} {r : Result (A × Tx)} → Kept b t u → Keeps u r → Keeps t r
  then_Kept k h = record { holds = λ x e. Kept-trans k (h.holds x e) }

  pub then_Kept_tx : {t u : Tx} {r : Result Tx} → Kept b t u → KeepsTx u r → KeepsTx t r
  then_Kept_tx k h = record { holds = λ x e. Kept-trans k (h.holds x e) }

  module _ (kind rev counter : ℕ) (a : AreAside kind rev counter) where
    put_name-Kept :
        (t : Tx) (name : Bytes) (id : ℕ) → IsOpen t → KeepsTx t (put_name b t kind rev name id)
    unfolding put_name
    put_name-Kept t name id o =
        Ensures-bind
          (put-Kept t ks_catalog (catalog_key kind name) (put_uint32 id) o (a.kind_aside name))
          λ u k.
            then_Kept_tx k (put-Kept u ks_catalog (rev_key rev id) name k.opened (a.rev_aside id))

    intern_new-Kept :
        (t : Tx) (name : Bytes) → IsOpen t → Keeps t (intern_new b t kind rev counter name)
    unfolding intern_new write_counter
    intern_new-Kept t name o = Ensures-after (read_counter b t counter) λ read.
        let next = if read == 0 then 1 else read in
        Ensures-after (id_space next) λ _. Ensures-bind (put_name-Kept t name next o) λ u k.
          Ensures-bind
            (put-Kept u ks_catalog (catalog_key counter []) (put_uint64 (next + 1)) k.opened
              a.counter_aside)
            λ v l. Ensures-ok (Kept-trans k l)

    intern_found-Kept :
        (t : Tx) (name : Bytes) (r : Option Bytes)
        → IsOpen t
        → Keeps t (intern_found b t kind rev counter name r)
    intern_found-Kept t name none o = intern_new-Kept t name o
    intern_found-Kept t name (some raw) o =
        Ensures-after (id_of_raw raw) λ id. Ensures-ok (Kept-refl t o)

    pub intern-Kept :
        (t : Tx) (name : Bytes) → IsOpen t → Keeps t (intern b t kind rev counter name)
    unfolding intern
    intern-Kept t name o =
        Ensures-after (maybe (b.get t ks_catalog (catalog_key kind name)))
          λ r. intern_found-Kept t name r o

pub props-AreAside : AreAside cat_prop cat_prop_rev cat_next_prop
unfolding aside catalog_key rev_key bytes_beq
props-AreAside = record { kind_aside = λ name. refl; rev_aside = λ id. refl; counter_aside = refl }

pub labels-AreAside : AreAside cat_label cat_label_rev cat_next_label
unfolding aside catalog_key rev_key bytes_beq
labels-AreAside = record { kind_aside = λ name. refl; rev_aside = λ id. refl; counter_aside = refl }

pub types-AreAside : AreAside cat_edge_type cat_type_rev cat_next_type
unfolding aside catalog_key rev_key bytes_beq
types-AreAside = record { kind_aside = λ name. refl; rev_aside = λ id. refl; counter_aside = refl }

label-aside : (k : Bytes) → aside ks_label k ≡ true
unfolding aside
label-aside k = refl

prop-aside : (k : Bytes) → aside ks_prop k ≡ true
unfolding aside
prop-aside k = refl

module _ (b : Backend) (ix : Indexing b) where
  open b use {Tx, IsOpen}

  pub intern_labels-Kept :
      (t : Tx) (ls : List Bytes) → IsOpen t → Keeps b t (intern_labels b ix t ls)
  unfolding intern_labels
  intern_labels-Kept t [] o = Ensures-ok (Kept-refl b t o)
  intern_labels-Kept t (l ∷ ls) o =
      Ensures-bind (intern-Kept b cat_label cat_label_rev cat_next_label labels-AreAside t l o)
        λ x k.
          Ensures-bind (intern_labels-Kept x.1 ls k.opened) λ y m. Ensures-ok (Kept-trans b k m)

  pub index_labels-Kept :
      (t : Tx) (node_id : ℕ) (seen ids : List ℕ)
      → IsOpen t
      → KeepsTx b t (index_labels b ix t node_id seen ids)
  unfolding index_labels
  index_labels-Kept t node_id seen [] o = Ensures-ok (Kept-refl b t o)
  index_labels-Kept t node_id seen (id ∷ ids) o = elim (Bool-cases (contains (λ x. x == id) seen)) [
    | inl old ↦ rw (old, index_labels) (index_labels-Kept t node_id seen ids o)
    | inr new ↦
        rw (new, index_labels)
          (Ensures-bind (put-Kept b t ks_label (label_key id node_id) [] o (label-aside _))
            λ u k. then_Kept_tx b k (index_labels-Kept u node_id (id ∷ seen) ids k.opened))
  ]

  unindex_label-Kept :
      (t : Tx) (node_id : ℕ) (r : Option ℕ)
      → IsOpen t
      → KeepsTx b t (unindex_label b ix t node_id r)
  unindex_label-Kept t node_id none o = Ensures-ok (Kept-refl b t o)
  unindex_label-Kept t node_id (some id) o =
      delete-Kept b t ks_label (label_key id node_id) o (label-aside _)

  pub unindex_labels-Kept :
      (t : Tx) (node_id : ℕ) (ls : List Bytes)
      → IsOpen t
      → KeepsTx b t (unindex_labels b ix t node_id ls)
  unfolding unindex_labels
  unindex_labels-Kept t node_id [] o = Ensures-ok (Kept-refl b t o)
  unindex_labels-Kept t node_id (l ∷ ls) o = Ensures-after (lookup_name b t cat_label l) λ r.
      Ensures-bind (unindex_label-Kept t node_id r o)
        λ u k. then_Kept_tx b k (unindex_labels-Kept u node_id ls k.opened)

  pub index_props-Kept :
      (t : Tx) (node_id : ℕ) (props : List Prop)
      → IsOpen t
      → KeepsTx b t (index_props b ix t node_id props)
  unfolding index_props
  index_props-Kept t node_id [] o = Ensures-ok (Kept-refl b t o)
  index_props-Kept t node_id (p ∷ props) o =
      Ensures-bind
        (put-Kept b t ks_prop (prop_index_key p.id (ix.encode_key p.value) node_id) [] o
          (prop-aside _))
        λ u k. then_Kept_tx b k (index_props-Kept u node_id props k.opened)

  pub unindex_props-Kept :
      (t : Tx) (node_id : ℕ) (props : List Prop)
      → IsOpen t
      → KeepsTx b t (unindex_props b ix t node_id props)
  unfolding unindex_props
  unindex_props-Kept t node_id [] o = Ensures-ok (Kept-refl b t o)
  unindex_props-Kept t node_id (p ∷ props) o =
      Ensures-bind
        (delete-Kept b t ks_prop (prop_index_key p.id (ix.encode_key p.value) node_id) o
          (prop-aside _))
        λ u k. then_Kept_tx b k (unindex_props-Kept u node_id props k.opened)

  assign_all-Kept :
      (t : Tx) (by_id : Assoc ℕ Prop) (props : Assoc Bytes Value)
      → IsOpen t
      → Keeps b t (assign_all b ix t by_id props)
  unfolding assign_all
  assign_all-Kept t by_id [] o = Ensures-ok (Kept-refl b t o)
  assign_all-Kept t by_id ((name, v) ∷ props) o = Ensures-after (check_storable v) λ _.
      Ensures-bind (intern-Kept b cat_prop cat_prop_rev cat_next_prop props-AreAside t name o)
        λ x k. then_Kept b k (assign_all-Kept x.1 _ props k.opened)

  pub assign_props-Kept :
      (t : Tx) (props : Assoc Bytes Value) → IsOpen t → Keeps b t (assign_props b ix t props)
  unfolding assign_props
  assign_props-Kept t props o = Ensures-bind (assign_all-Kept t [] props o) λ x k. Ensures-ok k

  pub merge_props-Kept :
      (t : Tx) (named : Assoc Bytes Prop) (props : Assoc Bytes Value)
      → IsOpen t
      → Keeps b t (merge_props b ix t named props)
  unfolding merge_props
  merge_props-Kept t named [] o = Ensures-ok (Kept-refl b t o)
  merge_props-Kept t named ((name, v) ∷ props) o = Ensures-after (check_storable v) λ _.
      Ensures-bind (intern-Kept b cat_prop cat_prop_rev cat_next_prop props-AreAside t name o)
        λ x k. then_Kept b k (merge_props-Kept x.1 _ props k.opened)
