-- ===== src/Graph/Declared.antt =====
-- internal/storage/graphstore/declared.go and internal/index: the entries of declared indexes, and the
-- write count of internal/catalog. `catalog.Load`, `value.EncodeKey`, `value.EncodeComposite` and the
-- writes that the checks before a commit come to are parameters, without laws.
pub mod Keyspaces
use mini_graph_db.Prelude.{
  ℕ, ◌+◌, ◌^◌, ◌%◌, Bool, true, false, not, Option, none, some, List, [], ◌∷◌, ◌++◌, ◌≡◌, refl,
  if◌then◌else◌, ◌==◌, nat_eq, ◌||◌, length,
}
use mini_graph_db.Prelude.Bytes.{Bytes, bytes_eq, bytes_beq, put_uint32, put_uint64, uint64}
use mini_graph_db.Prelude.Assoc.{Assoc, lookup, insert}
use mini_graph_db.Storage.{Result, ok, err, ◌>>=◌, corruption, ks_catalog, ks_prop}
use mini_graph_db.Txn.Backend.{Backend}
use mini_graph_db.Value.{Value, scalar, null, storable}
use mini_graph_db.Graph.{Prop, Node, Edge}
use mini_graph_db.Graph.Keys.{catalog_key}
use mini_graph_db.Graph.Names.{maybe}
use mini_graph_db.Graph.Indexing.{aside}
use mini_graph_db.Graph.Store.{contains}

-- `catalog.Entity` and `catalog.State`.
pub data Entity : Type 0 where
  node_entity edge_entity : Entity

pub data State : Type 0 where
  online populating failed : State

-- `catalog.Index`.
pub record Index : Type 0 where
  pub id : ℕ
  pub name : Bytes
  pub entity : Entity
  pub label : Bytes
  pub props : List Bytes
  pub unique : Bool
  pub state : State

abbrev pub is_touched : State → Bool
is_touched online = true
is_touched populating = true
is_touched failed = false

abbrev pub same_entity : Entity → Entity → Bool
same_entity node_entity node_entity = true
same_entity edge_entity edge_entity = true
same_entity _ _ = false

-- The arguments of `touchDeclared`.
pub record Touch : Type 0 where
  pub entity : Entity
  pub labels : List Bytes
  pub edge_type : Bytes
  pub props : List Prop
  pub id : ℕ
  pub add : Bool

-- `hasLabel` for a node, the type for an edge; an index without a label takes all.
abbrev pub fits_label : Touch → Bytes → Bool
fits_label x label =
    label == []
    || (if same_entity x.entity node_entity
        then contains (λ l. l == label) x.labels
        else label == x.edge_type)

abbrev pub is_null_value : Value → Bool
is_null_value (scalar null) = true
is_null_value _ = false

unfoldable pub fill_map : Assoc Bytes Value → List Prop → Assoc Bytes Value
fill_map m [] = m
fill_map m (p ∷ ps) = fill_map (insert p.name p.value m) ps

unfoldable pub prop_map : List Prop → Assoc Bytes Value
unfolding fill_map
prop_map ps = fill_map [] ps

abbrev pub is_indexed : Value → Bool
is_indexed v = not (is_null_value v || not (storable v))

abbrev pub with_value : Option Value → Option (List Value) → Option (List Value)
with_value (some v) (some vals) = if is_indexed v then some (v ∷ vals) else none
with_value _ _ = none

-- `none`: a property is not there, is null or cannot be stored.
unfoldable pub index_values : List Bytes → Assoc Bytes Value → Option (List Value)
index_values [] m = some []
index_values (name ∷ names) m = let rest = index_values names m in with_value (lookup name m) rest

-- `index.Indexable`.
unfoldable pub indexable : List Value → Bool
indexable [] = false
indexable vals = not (contains (λ v. not (is_indexed v)) vals)

-- The kinds of keys in keyspace C that the checks before a commit write: statistics, the format, the
-- write count, the generation, unique locks and the entries of unique labels.
pub data NoteKind : Type 0 where
  stats format write_count generation unique_lock unique_index : NoteKind

abbrev pub kind_byte : NoteKind → ℕ
kind_byte stats = 34
kind_byte format = 35
kind_byte write_count = 37
kind_byte generation = 38
kind_byte unique_lock = 39
kind_byte unique_index = 17

-- One write, or a deletion.
pub record Note : Type 0 where
  pub kind : NoteKind
  pub rest : Bytes
  pub value : Option Bytes

pub note-aside : (k : NoteKind) (rest : Bytes) → aside ks_catalog (kind_byte k ∷ rest) ≡ true
unfolding aside catalog_key bytes_beq
note-aside stats rest = refl
note-aside format rest = refl
note-aside write_count rest = refl
note-aside generation rest = refl
note-aside unique_lock rest = refl
note-aside unique_index rest = refl

-- What the calls of declared.go give `touchDeclared`.
abbrev pub node_touch : Bool → Node → Touch
node_touch add n = record {
  entity = node_entity;
  labels = n.labels;
  edge_type = [];
  props = n.props;
  id = n.id;
  add = add;
}

abbrev pub edge_touch : Bool → Edge → Touch
edge_touch add e = record {
  entity = edge_entity;
  labels = [];
  edge_type = e.label;
  props = e.props;
  id = e.id;
  add = add;
}

module _ (b : Backend) where
  open b use {Tx, view, IsOpen}

  -- `readU64`.
  abbrev pub u64_of : Option Bytes → Result ℕ
  u64_of none = ok 0
  u64_of (some raw) = if not (length raw == 8) then err corruption else ok (uint64 raw % 2 ^ 64)

  unfoldable pub read_u64 : Tx → ℕ → Bytes → Result ℕ
  read_u64 t kind name = do o ← maybe (b.get t ks_catalog (catalog_key kind name)); u64_of o

  -- The sum wraps in the eight bytes that hold it.
  unfoldable pub add_writes : Tx → ℕ → Result Tx
  add_writes t n = if n == 0 then ok t else (do
    cur ← read_u64 t (kind_byte write_count) []
    b.put t ks_catalog (catalog_key (kind_byte write_count) []) (put_uint64 (cur + n)))

  unfoldable pub write_note : Tx → Bytes → Option Bytes → Result Tx
  write_note t k none = b.delete t ks_catalog k
  write_note t k (some v) = b.put t ks_catalog k v

  unfoldable pub write_notes : Tx → List Note → Result Tx
  write_notes t [] = ok t
  write_notes t (n ∷ ns) = do u ← write_note t (kind_byte n.kind ∷ n.rest) n.value; write_notes u ns

module _ (b : Backend) (load : b.Tx → Result (List Index)) (composite : List Value → Bytes) where
  open b use {Tx}

  -- `index.Prefix` and `index.Encode`.
  abbrev pub entry_key : ℕ → List Value → ℕ → Bytes
  entry_key id vals entity = 255 ∷ ((put_uint32 id ++ composite vals) ++ put_uint64 entity)

  -- `index.Put` and `index.Delete`.
  abbrev pub index_entry : Tx → ℕ → List Value → ℕ → Result Tx
  index_entry t id vals entity =
      if not (indexable vals) then ok t else b.put t ks_prop (entry_key id vals entity) []

  abbrev pub unindex_entry : Tx → ℕ → List Value → ℕ → Result Tx
  unindex_entry t id vals entity =
      if not (indexable vals) then ok t else b.delete t ks_prop (entry_key id vals entity)

  abbrev pub touch_entry : Tx → Touch → Index → Option (List Value) → Result Tx
  touch_entry t x i none = ok t
  touch_entry t x i (some vals) =
      if x.add then index_entry t i.id vals x.id else unindex_entry t i.id vals x.id

  -- The body of the loop of `touchDeclared`.
  unfoldable pub touch_index : Tx → Touch → Index → Result Tx
  touch_index t x i =
      if not (is_touched i.state)
      then ok t
      else if not (same_entity i.entity x.entity)
      then ok t
      else if not (fits_label x i.label)
      then ok t
      else touch_entry t x i (index_values i.props (prop_map x.props))

  unfoldable pub touch_all : Tx → Touch → List Index → Result Tx
  touch_all t x [] = ok t
  touch_all t x (i ∷ is) = do u ← touch_index t x i; touch_all u x is

  unfoldable pub touch_declared : Tx → Touch → Result Tx
  touch_declared t x = do is ← load t; touch_all t x is
