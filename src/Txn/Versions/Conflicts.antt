-- ===== src/Txn/Versions/Conflicts.antt =====
-- `validate`: first committer wins.
use mini_graph_db.Prelude.{
  ℕ, ◌≤◌, Option, none, some, [], ◌∷◌, ◌≡◌, refl, arith, ◌==◌, nat_eq, Bool-cases, nat_beq_iff, inl,
  inr, ◌∙◌,
}
use mini_graph_db.Prelude.Bytes.{Bytes, bytes_eq, bytes_beq_iff}
use mini_graph_db.Prelude.Assoc.{Assoc, lookup}
use mini_graph_db.Storage.{Keyspace, Error, ok, Result-cases}
use mini_graph_db.Storage.WriteSet.{WriteSet, find, ops_of}
use mini_graph_db.Txn.Backend.{Backend}
use mini_graph_db.Txn.Version.{Head}
use mini_graph_db.Txn.Versions.{
  WriteOp, read_head, validate_op, validate_ops, validate_all, validate,
}

-- Nothing was committed to the key after the snapshot.
pub record IsCurrent (snap : ℕ) (h : Head) : Type 0 where
  pub created : h.create ≤ snap
  pub unchanged : h.delete ≤ snap

module _ (b : Backend) (t : b.Tx) (snap : ℕ) where
  validate_op-none :
      (o : Option Head) (op : WriteOp) (first : Option Error)
      → validate_op b snap o op first ≡ ok none
      → first ≡ none
  unfolding validate_op
  validate_op-none none op first e = ground (arith, e)
  validate_op-none (some h) op none e = refl
  validate_op-none (some h) op (some x) e = ground (arith, e)

  validate_op-IsCurrent :
      (h : Head) (op : WriteOp) (first : Option Error)
      → validate_op b snap (some h) op first ≡ ok none
      → IsCurrent snap h
  unfolding validate_op
  validate_op-IsCurrent h op none e = record {
    created = ground (arith, e);
    unchanged = ground (arith, e);
  }
  validate_op-IsCurrent h op (some x) e = record {
    created = ground (arith, e);
    unchanged = ground (arith, e);
  }

  -- One pass of the loop that ends without a conflict.
  passed :
      (ks : Keyspace) (k : Bytes) (op : WriteOp) (ops : Assoc Bytes WriteOp) (first : Option Error)
      → validate_ops b t snap ks ((k, op) ∷ ops) first ≡ ok none
      → (o : Option Head) × (first' : Option Error) × (read_head b t ks k ≡ ok o)
        × (validate_op b snap o op first ≡ ok first')
        × (validate_ops b t snap ks ops first' ≡ ok none)
  unfolding validate_ops
  passed ks k op ops first e = elim (Result-cases (read_head b t ks k)) [
    | inl (o, ho) ↦ elim (Result-cases (validate_op b snap o op first)) [
      | inl (first', hv) ↦ (o, first', ho, hv, ground (arith, e, ho, hv))
      | inr (x, hv) ↦ absurd (ground (arith, e, ho, hv))
    ]
    | inr (x, ho) ↦ absurd (ground (arith, e, ho))
  ]

  validate_ops-none :
      (ops : Assoc Bytes WriteOp) (ks : Keyspace) (first : Option Error)
      → validate_ops b t snap ks ops first ≡ ok none
      → first ≡ none
  validate_ops-none [] ks first e = unfold validate_ops in ground (arith, e)
  validate_ops-none ((k, op) ∷ ops) ks first e =
      let (o, first', ho, hv, rest) = passed ks k op ops first e in
      validate_op-none o op first (hv ∙ ground (arith, validate_ops-none ops ks first' rest))

  validate_ops-IsCurrent :
      (ops : Assoc Bytes WriteOp) (ks : Keyspace) (first : Option Error) (k : Bytes) (op : WriteOp)
      (h : Head)
      → validate_ops b t snap ks ops first ≡ ok none
      → lookup k ops ≡ some op
      → read_head b t ks k ≡ ok (some h)
      → IsCurrent snap h
  unfolding lookup
  validate_ops-IsCurrent [] ks first k op h e there now = absurd (ground (arith, there))
  validate_ops-IsCurrent ((key, op') ∷ ops) ks first k op h e there now =
      let (o, first', ho, hv, rest) = passed ks key op' ops first e in
      elim (Bool-cases (key == k)) [
        | inl same ↦
            let names : key ≡ k = (bytes_beq_iff key k).0 same in
            let head : read_head b t ks key ≡ ok (some h) = rw names now in
            let both : o ≡ some h = ground (arith, ho, head) in
            validate_op-IsCurrent h op' first
              (rw (← both) (hv ∙ ground (arith, validate_ops-none ops ks first' rest)))
        | inr other ↦
            validate_ops-IsCurrent ops ks first' k op h rest (ground (arith, there, other)) now
      ]

  spaces_passed :
      (ks : Keyspace) (ops : Assoc Bytes WriteOp) (w : WriteSet WriteOp) (first : Option Error)
      → validate_all b t snap ((ks, ops) ∷ w) first ≡ ok none
      → (first' : Option Error) × (validate_ops b t snap ks ops first ≡ ok first')
        × (validate_all b t snap w first' ≡ ok none)
  unfolding validate_all
  spaces_passed ks ops w first e = elim (Result-cases (validate_ops b t snap ks ops first)) [
    | inl (first', hv) ↦ (first', hv, ground (arith, e, hv))
    | inr (x, hv) ↦ absurd (ground (arith, e, hv))
  ]

  validate_all-none :
      (w : WriteSet WriteOp) (first : Option Error)
      → validate_all b t snap w first ≡ ok none
      → first ≡ none
  validate_all-none [] first e = unfold validate_all in ground (arith, e)
  validate_all-none ((ks, ops) ∷ w) first e =
      let (first', hv, rest) = spaces_passed ks ops w first e in
      validate_ops-none ops ks first (hv ∙ ground (arith, validate_all-none w first' rest))

  validate_all-IsCurrent :
      (w : WriteSet WriteOp) (first : Option Error) (ks : Keyspace) (k : Bytes) (op : WriteOp)
      (h : Head)
      → validate_all b t snap w first ≡ ok none
      → find ks k w ≡ some op
      → read_head b t ks k ≡ ok (some h)
      → IsCurrent snap h
  unfolding find ops_of lookup
  validate_all-IsCurrent [] first ks k op h e there now = absurd (ground (arith, there))
  validate_all-IsCurrent ((is, ops) ∷ w) first ks k op h e there now =
      let (first', hv, rest) = spaces_passed is ops w first e in
      elim (Bool-cases (is == ks)) [
        | inl same ↦
            let names : is ≡ ks = (nat_beq_iff is ks).0 same in
            validate_ops-IsCurrent ops is first k op h
              (hv ∙ ground (arith, validate_all-none w first' rest)) (ground (arith, there, same))
              (rw names now)
        | inr other ↦
            validate_all-IsCurrent w first' ks k op h rest (ground (arith, there, other)) now
      ]

  -- First committer wins: a validation that returns no error has found that no key of the write set
  -- was created, replaced or deleted after the snapshot.
  pub validate-IsCurrent :
      (w : WriteSet WriteOp) (ks : Keyspace) (k : Bytes) (op : WriteOp) (h : Head)
      → validate b t snap w ≡ ok tt
      → find ks k w ≡ some op
      → read_head b t ks k ≡ ok (some h)
      → IsCurrent snap h
  unfolding validate
  validate-IsCurrent w ks k op h e there now = elim (Result-cases (validate_all b t snap w none)) [
    | inl (none, hv) ↦ validate_all-IsCurrent w none ks k op h hv there now
    | inl (some x, hv) ↦ absurd (ground (arith, e, hv))
    | inr (x, hv) ↦ absurd (ground (arith, e, hv))
  ]
