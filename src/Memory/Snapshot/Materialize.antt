-- ===== src/Memory/Snapshot/Materialize.antt =====
-- What a cursor walks: `materialize` is ordered, and holds what `Get` would return.
use mini_graph_db.Prelude.{
  Option, none, some, List, [], ◌∷◌, ◌≡◌, refl, arith, if◌then◌else◌, All, inl, inr, Bool-cases,
}
use mini_graph_db.Prelude.Bytes.{Bytes, bytes_eq, bytes_beq_iff}
use mini_graph_db.Prelude.Assoc.{Assoc, lookup, Distinct}
use mini_graph_db.Storage.{Keyspace}
use mini_graph_db.Storage.WriteSet.{WriteSet, ops_of, find, IsDistinct, ops_of-Distinct}
use mini_graph_db.Memory.Space.Keys.{IsBelow, IsSorted, has}
use mini_graph_db.Memory.Snapshot.{
  WriteOp, Snapshot, Item, ensure, value_in, base_items, extra_items, sort_items, materialize,
}
use mini_graph_db.Memory.Snapshot.Items.{
  AllAbove, IsOrdered, Apart, lookup-sort_items, sort_items-IsOrdered, lookup-merge_items,
  merge_items-IsOrdered,
}
use mini_graph_db.Memory.Snapshot.Publish.{IsSound, after, value_in-ensure, ensure-IsValid}

AllAbove-base_items :
    (a : Bytes) (vals : Assoc Bytes Bytes) (overlay : Assoc Bytes WriteOp) (keys : List Bytes)
    → All (IsBelow a) keys
    → AllAbove a (base_items vals overlay keys)
unfolding base_items
AllAbove-base_items a vals overlay [] h = tt
AllAbove-base_items a vals overlay (k ∷ ks) h =
    ground (arith, AllAbove-base_items a vals overlay ks h.1)

base_items-IsOrdered :
    (vals : Assoc Bytes Bytes) (overlay : Assoc Bytes WriteOp) (keys : List Bytes)
    → IsSorted keys
    → IsOrdered (base_items vals overlay keys)
unfolding base_items
base_items-IsOrdered vals overlay [] s = tt
base_items-IsOrdered vals overlay (k ∷ ks) s =
    ground
      (arith, base_items-IsOrdered vals overlay ks s.1, AllAbove-base_items k vals overlay ks s.0)

abbrev or_nil : Option Bytes → Bytes
or_nil none = []
or_nil (some v) = v

lookup-base_items :
    (j : Bytes) (vals : Assoc Bytes Bytes) (overlay : Assoc Bytes WriteOp) (keys : List Bytes)
    → lookup j (base_items vals overlay keys)
      ≡ (if has j keys then after (lookup j overlay) (some (or_nil (lookup j vals))) else none)
unfolding base_items lookup
lookup-base_items j vals overlay [] = refl
lookup-base_items j vals overlay (k ∷ ks) =
    ground (arith, lookup-base_items j vals overlay ks, bytes_beq_iff k j)

lookup-extra_items :
    (j : Bytes) (keys : List Bytes) (ops : Assoc Bytes WriteOp)
    → Distinct ops
    → lookup j (extra_items keys ops) ≡ (if has j keys then none else after (lookup j ops) none)
unfolding extra_items lookup
lookup-extra_items j keys [] d = ground arith
lookup-extra_items j keys ((k, op) ∷ ops) d =
    ground (arith, lookup-extra_items j keys ops d.1, bytes_beq_iff k j, d.0)

extra_items-Distinct :
    (keys : List Bytes) (ops : Assoc Bytes WriteOp) → Distinct ops → Distinct (extra_items keys ops)
unfolding extra_items
extra_items-Distinct keys [] d = tt
extra_items-Distinct keys ((k, op) ∷ ops) d =
    ground (arith, extra_items-Distinct keys ops d.1, lookup-extra_items k keys ops d.1, d.0)

module _ (s : Snapshot) (w : WriteSet WriteOp) (ks : Keyspace) (sound : IsSound s)
    (d : IsDistinct w) where
  base : List Item
  base = base_items (ensure ks s).vals (ops_of ks w) (ensure ks s).keys

  extra : List Item
  extra = sort_items (extra_items (ensure ks s).keys (ops_of ks w))

  lookup-base :
      (j : Bytes)
      → lookup j base ≡ (
          if has j (ensure ks s).keys
          then after (find ks j w) (some (or_nil (value_in s ks j)))
          else none)
  unfolding base find
  lookup-base j = ground (
    arith,
    lookup-base_items j (ensure ks s).vals (ops_of ks w) (ensure ks s).keys,
    value_in-ensure s ks j,
  )

  lookup-extra :
      (j : Bytes)
      → lookup j extra ≡ (if has j (ensure ks s).keys then none else after (find ks j w) none)
  unfolding extra find
  lookup-extra j = ground (
    arith,
    lookup-sort_items j (extra_items (ensure ks s).keys (ops_of ks w)),
    lookup-extra_items j (ensure ks s).keys (ops_of ks w) (ops_of-Distinct ks w d.1),
  )

  base-extra-Apart : Apart base extra
  base-extra-Apart j = elim (Bool-cases (has j (ensure ks s).keys)) [
    | inl e ↦ inr (ground (arith, lookup-extra j))
    | inr e ↦ inl (ground (arith, lookup-base j))
  ]

  -- Over a sound snapshot and a write set that holds no key twice, a cursor meets the keys in
  -- strictly ascending byte order.
  pub materialize-IsOrdered : IsOrdered (materialize s w ks)
  unfolding materialize base extra
  materialize-IsOrdered =
      merge_items-IsOrdered base extra
        (base_items-IsOrdered _ _ (ensure ks s).keys (ensure-IsValid ks s sound).sorted)
        (sort_items-IsOrdered _ (extra_items-Distinct _ _ (ops_of-Distinct ks w d.1)))
        base-extra-Apart

  -- Over a sound snapshot and a write set that holds no key twice, a cursor meets exactly the keys
  -- that a read finds, with the values that the read returns.
  pub lookup-materialize :
      (j : Bytes) → lookup j (materialize s w ks) ≡ after (find ks j w) (value_in s ks j)
  unfolding materialize base extra
  lookup-materialize j = ground (
    arith,
    lookup-merge_items j base extra base-extra-Apart,
    lookup-base j,
    lookup-extra j,
    (ensure-IsValid ks s sound).agrees j,
    value_in-ensure s ks j,
  )
