-- ===== src/Memory/Snapshot.antt =====
-- `snapshot`, `writeOp` and `materialize` of memory/engine.go: the committed keyspaces, and a
-- transaction's write set laid over them. `clone` copies, so a snapshot is a value here.
pub mod Publish
pub mod Items
pub mod Materialize
use mini_graph_db.Prelude.{
  ℕ, ◌+◌, Bool, true, false, Option, none, some, List, [], ◌∷◌, ◌++◌, Ordering, if◌then◌else◌,
  length, nat_eq,
}
use mini_graph_db.Prelude.Bytes.{Bytes, compare_bytes, bytes_eq}
use mini_graph_db.Prelude.Assoc.{Assoc, lookup, insert}
use mini_graph_db.Storage.{Keyspace}
use mini_graph_db.Storage.WriteSet.{WriteSet, ops_of}
use mini_graph_db.Memory.Space
use mini_graph_db.Memory.Space.{Space}
use mini_graph_db.Memory.Space.Keys.{has}

pub record WriteOp : Type 0 where
  pub val : Bytes
  pub del : Bool

abbrev pub Snapshot : Type 0
Snapshot = Assoc Keyspace Space

-- `ensure`: the keyspace, made where it is missing.
unfoldable pub ensure : Keyspace → Snapshot → Space
ensure ks s = elim (lookup ks s) [ none ↦ Space.empty | some sp ↦ sp ]

-- `s.spaces[ks].vals[key]`, where a missing keyspace holds nothing.
unfoldable pub value_in : Snapshot → Keyspace → Bytes → Option Bytes
value_in s ks k = elim (lookup ks s) [ none ↦ none | some sp ↦ lookup k sp.vals ]

unfoldable pub key_count : Snapshot → ℕ
key_count [] = 0
key_count ((ks, sp) ∷ s) = length sp.keys + key_count s

-- The inner loop of `Commit`.
unfoldable pub apply_ops : Assoc Bytes WriteOp → Space → Space
apply_ops [] sp = sp
apply_ops ((k, op) ∷ ops) sp =
    apply_ops ops (if op.del then Space.del sp k else Space.put sp k op.val)

-- The outer loop of `Commit`.
unfoldable pub apply_writes : WriteSet WriteOp → Snapshot → Snapshot
apply_writes [] s = s
apply_writes ((ks, ops) ∷ w) s = apply_writes w (insert ks (apply_ops ops (ensure ks s)) s)

abbrev pub Item : Type 0
Item = Bytes × Bytes

-- The first loop of `materialize`: the committed keys under the overlay.
unfoldable pub base_items : Assoc Bytes Bytes → Assoc Bytes WriteOp → List Bytes → List Item
base_items vals overlay [] = []
base_items vals overlay (k ∷ ks) =
    let rest = base_items vals overlay ks in
    elim (lookup k overlay) [
      | some op ↦ if op.del then rest else (k, op.val) ∷ rest
      | none ↦ (k, elim (lookup k vals) [ none ↦ [] | some v ↦ v ]) ∷ rest
    ]

-- The second loop: the overlay's live keys that are not committed.
unfoldable pub extra_items : List Bytes → Assoc Bytes WriteOp → List Item
extra_items keys [] = []
extra_items keys ((k, op) ∷ ops) =
    let rest = extra_items keys ops in
    if op.del then rest else if has k keys then rest else (k, op.val) ∷ rest

-- `sort.Slice` by key. The keys differ, so any sort gives this list.
unfoldable pub insert_item : Item → List Item → List Item
insert_item (k, v) [] = (k, v) ∷ []
insert_item (k, v) ((j, w) ∷ l) = elim (compare_bytes k j) [
  | Ordering.gt ↦ (j, w) ∷ insert_item (k, v) l
  | _ ↦ (k, v) ∷ (j, w) ∷ l
]

unfoldable pub sort_items : List Item → List Item
sort_items [] = []
sort_items (x ∷ l) = insert_item x (sort_items l)

-- The merge loop, with the two appends behind it.
unfoldable pub merge_items : List Item → List Item → List Item
merge_items [] b = b
merge_items ((k, v) ∷ a) [] = (k, v) ∷ a
merge_items ((k, v) ∷ a) ((j, w) ∷ b) = elim (compare_bytes k j) [
  | Ordering.gt ↦ (j, w) ∷ merge_items ((k, v) ∷ a) b
  | _ ↦ (k, v) ∷ merge_items a ((j, w) ∷ b)
]

unfoldable pub materialize : Snapshot → WriteSet WriteOp → Keyspace → List Item
materialize s w ks =
    let sp = ensure ks s in
    let overlay = ops_of ks w in
    merge_items (base_items sp.vals overlay sp.keys) (sort_items (extra_items sp.keys overlay))
