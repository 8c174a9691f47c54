-- ===== src/Graph/Declared/Keyspaces.antt =====
-- internal/storage/graphstore/declared.go: the keyspaces that declared indexes, the write count and the
-- writes before a commit touch.
use mini_graph_db.Prelude.{
  ℕ, Bool, true, false, not, Option, none, some, List, [], ◌∷◌, ◌≡◌, refl, arith, ◌∙◌,
  if◌then◌else◌, ◌==◌, nat_eq, Bool-cases, inl, inr,
}
use mini_graph_db.Prelude.Bytes.{Bytes, bytes_eq}
use mini_graph_db.Storage.{Result, ok, ◌>>=◌, ks_catalog, ks_prop}
use mini_graph_db.Storage.Ensures.{Ensures, Ensures-ok, Ensures-after, Ensures-bind}
use mini_graph_db.Txn.Backend.{Backend}
use mini_graph_db.Value.{Value}
use mini_graph_db.Graph.Keys.{catalog_key}
use mini_graph_db.Graph.Indexing.{aside, Kept, Only, Counted, NoMore, is_write_count, Indexing}
use mini_graph_db.Graph.Store.Frames.{
  Kept-refl, Kept-trans, put-Written, delete-Written, put-Kept, delete-Kept,
}
use mini_graph_db.Graph.Declared.{
  Index, Touch, Note, write_count, kind_byte, note-aside, is_touched, same_entity, fits_label,
  index_values, prop_map, indexable, read_u64, add_writes, write_note, write_notes, index_entry,
  unindex_entry, touch_entry, touch_index, touch_all, touch_declared, node_touch, edge_touch,
}

-- A guard that leaves the transaction alone.
unless-Ensures {ℓ} :
    {A : Type ℓ} {P : A → Type 0} (c : Bool) {r s : Result A}
    → Ensures r P
    → Ensures s P
    → Ensures (if c then r else s) P
unless-Ensures true h h' = h
unless-Ensures false h h' = h'

pub Only-Kept : (b : Backend) (t u : b.Tx) → Only b ks_prop t u → Kept b t u
unfolding aside
Only-Kept b t u o = record { opened = o.opened; same = λ ks k h. o.rest ks k (ground (arith, h)) }

module _ (b : Backend) where
  open b use {Tx, view, IsOpen}

  -- The entries of one call: keyspace P alone, and none more when they go.
  pub record Touched (add : Bool) (t u : Tx) : Type 0 where
    pub only : Only b ks_prop t u
    pub less : add ≡ false → NoMore b ks_prop t u

  Touched-refl : (add : Bool) (t : Tx) → IsOpen t → Touched add t t
  Touched-refl add t o = record {
    only = record { opened = o; rest = λ js j h. refl };
    less = λ h j x. x;
  }

  Touched-trans : (add : Bool) (t u v : Tx) → Touched add t u → Touched add u v → Touched add t v
  Touched-trans add t u v x y = record {
    only = record {
      opened = y.only.opened;
      rest = λ js j h. y.only.rest js j h ∙ x.only.rest js j h;
    };
    less = λ h j n. y.less h j (x.less h j n);
  }

  put-Touched : (t : Tx) (k v : Bytes) → IsOpen t → Ensures (b.put t ks_prop k v) (Touched true t)
  put-Touched t k v o = record {
    holds = λ u done.
        let (ou, w) = (put-Written b t ks_prop k v o).holds u done in
        record {
          only = record { opened = ou; rest = λ js j h. w js j ∙ rw h refl };
          less = λ h. absurd (cc (h));
        };
  }

  delete-Touched :
      (t : Tx) (k : Bytes) → IsOpen t → Ensures (b.delete t ks_prop k) (Touched false t)
  delete-Touched t k o = record {
    holds = λ u done.
        let (ou, w) = (delete-Written b t ks_prop k o).holds u done in
        record {
          only = record { opened = ou; rest = λ js j h. w js j ∙ rw h refl };
          less = λ h j n.
              w ks_prop j
              ∙ elim (Bool-cases (k == j)) [ inl own ↦ rw own refl | inr other ↦ rw other n ];
        };
  }

  pub add_writes-Ensures :
      (t : Tx) (n : ℕ) → IsOpen t → Ensures (add_writes b t n) (λ u. Counted b t u × Kept b t u)
  unfolding add_writes catalog_key is_write_count
  add_writes-Ensures t n o =
      unless-Ensures (n == 0)
        (Ensures-ok (record { opened = o; rest = λ js j h. refl }, Kept-refl b t o))
        (Ensures-after (read_u64 b t (kind_byte write_count) []) λ cur. record {
          holds = λ u done.
              let (ou, w) = (put-Written b t ks_catalog _ _ o).holds u done in
              (
                record { opened = ou; rest = λ js j h. w js j ∙ rw h refl },
                (put-Kept b t ks_catalog _ _ o (note-aside write_count _)).holds u done,
              );
        })

  pub write_notes-Kept :
      (t : Tx) (ns : List Note) → IsOpen t → Ensures (write_notes b t ns) (Kept b t)
  unfolding write_notes write_note
  write_notes-Kept t [] o = Ensures-ok (Kept-refl b t o)
  write_notes-Kept t (n ∷ ns) o = Ensures-bind (noted n.value) λ u k. record {
    holds = λ v done. Kept-trans b k ((write_notes-Kept u ns k.opened).holds v done);
  }
    where
      noted : (v : Option Bytes) → Ensures (write_note b t (kind_byte n.kind ∷ n.rest) v) (Kept b t)
      noted none = delete-Kept b t ks_catalog _ o (note-aside n.kind n.rest)
      noted (some v) = put-Kept b t ks_catalog _ v o (note-aside n.kind n.rest)

  module _ (load : Tx → Result (List Index)) (composite : List Value → Bytes) where
    touch_entry-Touched :
        (t : Tx) (x : Touch) (i : Index) (o : Option (List Value))
        → IsOpen t
        → Ensures (touch_entry b load composite t x i o) (Touched x.add t)
    touch_entry-Touched t x i none o = Ensures-ok (Touched-refl x.add t o)
    touch_entry-Touched t x i (some vals) o = by_add x.add
      where
        by_add :
            (add : Bool)
            → Ensures
                (if add
                  then index_entry b load composite t i.id vals x.id
                  else unindex_entry b load composite t i.id vals x.id)
                (Touched add t)
        by_add true =
            unless-Ensures (not (indexable vals)) (Ensures-ok (Touched-refl true t o))
              (put-Touched t _ _ o)
        by_add false =
            unless-Ensures (not (indexable vals)) (Ensures-ok (Touched-refl false t o))
              (delete-Touched t _ o)

    touch_index-Touched :
        (t : Tx) (x : Touch) (i : Index)
        → IsOpen t
        → Ensures (touch_index b load composite t x i) (Touched x.add t)
    unfolding touch_index
    touch_index-Touched t x i o =
        let same = Ensures-ok (Touched-refl x.add t o) in
        unless-Ensures (not (is_touched i.state)) same (
          unless-Ensures (not (same_entity i.entity x.entity)) same (
            unless-Ensures (not (fits_label x i.label)) same
              (touch_entry-Touched t x i (index_values i.props (prop_map x.props)) o)))

    touch_all-Touched :
        (t : Tx) (x : Touch) (is : List Index)
        → IsOpen t
        → Ensures (touch_all b load composite t x is) (Touched x.add t)
    unfolding touch_all
    touch_all-Touched t x [] o = Ensures-ok (Touched-refl x.add t o)
    touch_all-Touched t x (i ∷ is) o = Ensures-bind (touch_index-Touched t x i o) λ u h. record {
      holds = λ v done.
          Touched-trans x.add t u v h ((touch_all-Touched u x is h.only.opened).holds v done);
    }

    pub touch_declared-Touched :
        (t u : Tx) (x : Touch)
        → IsOpen t
        → touch_declared b load composite t x ≡ ok u
        → Touched x.add t u
    unfolding touch_declared
    touch_declared-Touched t u x o done =
        (Ensures-after (load t) λ is. touch_all-Touched t x is o).holds u done

    -- What declared.go, internal/index and `catalog.AddWrites` do, with any `catalog.Load`, any
    -- encodings and any writes before a commit to the kinds of keys above.
    abbrev pub declared : (Value → Bytes) → (Tx → Result (List Note)) → Indexing b
    declared encode_key notes =
        let call = touch_declared b load composite in
        record {
          encode_key = encode_key;
          index_node = λ t n. call t (node_touch true n);
          unindex_node = λ t n. call t (node_touch false n);
          index_edge = λ t e. call t (edge_touch true e);
          unindex_edge = λ t e. call t (edge_touch false e);
          bump_writes = λ t. add_writes b t 1;
          prepare = λ t. notes t >>= write_notes b t;
          unindex_node_only =
              λ t u n o done. let h = touch_declared-Touched t u _ o done in (h.only, h.less refl);
          index_edge_only = λ t u e o done. (touch_declared-Touched t u _ o done).only;
          unindex_edge_only =
              λ t u e o done. let h = touch_declared-Touched t u _ o done in (h.only, h.less refl);
          bump_writes_only = λ t u o done. ((add_writes-Ensures t 1 o).holds u done).0;
          index_node_kept =
              λ t u n o done. Only-Kept b t u (touch_declared-Touched t u _ o done).only;
          unindex_node_kept =
              λ t u n o done. Only-Kept b t u (touch_declared-Touched t u _ o done).only;
          index_edge_kept =
              λ t u e o done. Only-Kept b t u (touch_declared-Touched t u _ o done).only;
          unindex_edge_kept =
              λ t u e o done. Only-Kept b t u (touch_declared-Touched t u _ o done).only;
          bump_writes_kept = λ t u o done. ((add_writes-Ensures t 1 o).holds u done).1;
          prepare_kept =
              λ t u o done. (Ensures-after (notes t) λ ns. write_notes-Kept t ns o).holds u done;
        }
