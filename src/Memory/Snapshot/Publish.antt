-- ===== src/Memory/Snapshot/Publish.antt =====
-- Publishing a write set: what a snapshot holds afterwards, and that it stays well formed.
use mini_graph_db.Prelude.{
  Bool, true, false, Option, none, some, [], ◌∷◌, ◌≡◌, refl, arith, if◌then◌else◌, All, nat_eq,
  nat_beq_iff, ◌==◌, Bool-cases, inl, inr,
}
use mini_graph_db.Prelude.Bytes.{Bytes, bytes_eq, bytes_beq_iff}
use mini_graph_db.Prelude.Assoc.{Assoc, lookup, insert, Distinct, lookup-insert}
use mini_graph_db.Storage.{Keyspace}
use mini_graph_db.Storage.WriteSet.{WriteSet, ops_of, find, IsDistinct}
use mini_graph_db.Memory.Space
use mini_graph_db.Memory.Space.{Space}
use mini_graph_db.Memory.Space.Laws.{
  value_at, IsValid, empty-IsValid, value_at-put, value_at-del, put-IsValid, del-IsValid,
}
use mini_graph_db.Memory.Snapshot.{WriteOp, Snapshot, ensure, value_in, apply_ops, apply_writes}

-- Every keyspace is a sorted finite map.
abbrev pub IsSound : Snapshot → Type 0
IsSound s = All (λ p. IsValid p.1) s

-- What a write leaves under its key.
abbrev pub after : Option WriteOp → Option Bytes → Option Bytes
after none old = old
after (some op) old = if op.del then none else some op.val

apply_ops-IsValid :
    (ops : Assoc Bytes WriteOp) (sp : Space) → IsValid sp → IsValid (apply_ops ops sp)
unfolding apply_ops
apply_ops-IsValid [] sp v = v
apply_ops-IsValid ((k, op) ∷ ops) sp v = apply_ops-IsValid ops _ (step (op.del))
  where
    step : (b : Bool) → IsValid (if b then Space.del sp k else Space.put sp k op.val)
    step true = del-IsValid sp k v
    step false = put-IsValid sp k op.val v

value_at-apply_ops :
    (ops : Assoc Bytes WriteOp) (sp : Space) (j : Bytes)
    → IsValid sp
    → Distinct ops
    → value_at (apply_ops ops sp) j ≡ after (lookup j ops) (value_at sp j)
unfolding apply_ops lookup
value_at-apply_ops [] sp j v d = refl
value_at-apply_ops ((k, op) ∷ ops) sp j v d = elim (Bool-cases op.del) [
  | inl e ↦ rw e (
      ground (
        arith,
        e,
        value_at-apply_ops ops (Space.del sp k) j (del-IsValid sp k v) d.1,
        value_at-del sp k j v,
        d.0,
        bytes_beq_iff k j,
      ))
  | inr e ↦ rw e (
      ground (
        arith,
        e,
        value_at-apply_ops ops (Space.put sp k op.val) j (put-IsValid sp k op.val v) d.1,
        value_at-put sp k j op.val,
        d.0,
        bytes_beq_iff k j,
      ))
]

pub value_in-ensure :
    (s : Snapshot) (ks : Keyspace) (k : Bytes) → value_in s ks k ≡ value_at (ensure ks s) k
unfolding value_in ensure lookup
value_in-ensure s ks k = ground arith

ensure-cons :
    (ks js : Keyspace) (sp : Space) (s : Snapshot)
    → ensure ks ((js, sp) ∷ s) ≡ (if js == ks then sp else ensure ks s)
unfolding ensure lookup
ensure-cons ks js sp s = ground arith

pub ensure-IsValid : (ks : Keyspace) (s : Snapshot) → IsSound s → IsValid (ensure ks s)
ensure-IsValid ks [] v = unfold ensure lookup in empty-IsValid
ensure-IsValid ks ((js, sp) ∷ s) v = elim (Bool-cases (js == ks)) [
  | inl e ↦ rw (ensure-cons, e) v.0
  | inr e ↦ rw (ensure-cons, e) (ensure-IsValid ks s v.1)
]

insert-IsSound :
    (ks : Keyspace) (sp : Space) (s : Snapshot) → IsValid sp → IsSound s → IsSound (insert ks sp s)
unfolding insert
insert-IsSound ks sp [] h v = (h, tt)
insert-IsSound ks sp ((js, old) ∷ s) h v = elim (Bool-cases (js == ks)) [
  | inl e ↦ rw e (h, v.1)
  | inr e ↦ rw e (v.0, insert-IsSound ks sp s h v.1)
]

-- Publishing keeps every keyspace a sorted finite map.
pub apply_writes-IsSound :
    (w : WriteSet WriteOp) (s : Snapshot) → IsSound s → IsSound (apply_writes w s)
unfolding apply_writes
apply_writes-IsSound [] s v = v
apply_writes-IsSound ((ks, ops) ∷ w) s v =
    apply_writes-IsSound w _
      (insert-IsSound ks _ s (apply_ops-IsValid ops (ensure ks s) (ensure-IsValid ks s v)) v)

ensure-insert :
    (ks js : Keyspace) (sp : Space) (s : Snapshot)
    → ensure js (insert ks sp s) ≡ (if ks == js then sp else ensure js s)
unfolding ensure
ensure-insert ks js sp s = ground (arith, lookup-insert ks js sp s)

-- After publishing, a key holds what its last write left, and what it held where none was made.
pub value_in-apply_writes :
    (w : WriteSet WriteOp) (s : Snapshot) (js : Keyspace) (j : Bytes)
    → IsSound s
    → IsDistinct w
    → value_in (apply_writes w s) js j ≡ after (find js j w) (value_in s js j)
unfolding apply_writes find ops_of lookup
value_in-apply_writes [] s js j v d = refl
value_in-apply_writes ((ks, ops) ∷ w) s js j v d =
    let done : Space = apply_ops ops (ensure ks s) in
    let ensured = ensure-IsValid ks s v in
    ground (
      arith,
      value_in-apply_writes w (insert ks done s) js j
          (insert-IsSound ks done s (apply_ops-IsValid ops (ensure ks s) ensured) v) (d.0.1, d.1.1),
      value_in-ensure s js j,
      value_in-ensure (insert ks done s) js j,
      ensure-insert ks js done s,
      value_at-apply_ops ops (ensure ks s) j ensured d.1.0,
      d.0.0,
      nat_beq_iff ks js,
    )
