-- ===== src/Storage/WriteSet.antt =====
-- `map[storage.Keyspace]map[string]writeOp` of memory/engine.go and txn/tx.go, for any `writeOp`.
-- An absent inner map and an empty one read alike, in Go too.
use mini_graph_db.Prelude.{
  ℕ, ◌+◌, Bool, true, false, ◌≡◌, refl, Option, none, some, [], ◌∷◌, arith, if◌then◌else◌, ◌==◌,
  nat_beq_iff, nat_eq, length, ◌&&◌, All,
}
use mini_graph_db.Prelude.Bytes.{Bytes, bytes_eq, bytes_beq_iff}
use mini_graph_db.Prelude.Assoc.{Assoc, lookup, insert, Distinct, lookup-insert, insert-Distinct}

abbrev pub WriteSet {ℓ} : Type ℓ → Type ℓ
WriteSet V = Assoc ℕ (Assoc Bytes V)

module _ {ℓ} {V : Type ℓ} where
  abbrev or_empty : Option (Assoc Bytes V) → Assoc Bytes V
  or_empty none = []
  or_empty (some ops) = ops

  -- `writes[ks]`.
  unfoldable pub ops_of : ℕ → WriteSet V → Assoc Bytes V
  ops_of ks w = or_empty (lookup ks w)

  -- `op, ok := writes[ks][string(key)]`.
  unfoldable pub find : ℕ → Bytes → WriteSet V → Option V
  find ks k w = lookup k (ops_of ks w)

  -- `writes[ks][string(key)] = op`, the inner map made where it is missing.
  unfoldable pub store : ℕ → Bytes → V → WriteSet V → WriteSet V
  store ks k op w = insert ks (insert k op (ops_of ks w)) w

  -- `writeCount`.
  unfoldable pub write_count : WriteSet V → ℕ
  write_count [] = 0
  write_count ((ks, ops) ∷ w) = length ops + write_count w

  -- `hasWrites`.
  unfoldable pub has_writes : WriteSet V → Bool
  has_writes [] = false
  has_writes ((ks, []) ∷ w) = has_writes w
  has_writes ((ks, op ∷ ops) ∷ w) = true

  abbrev pub IsDistinct : WriteSet V → Type ℓ
  IsDistinct w = Distinct w × All (λ p. Distinct p.1) w

  pub find-store :
      (ks js : ℕ) (k j : Bytes) (op : V) (w : WriteSet V)
      → find js j (store ks k op w) ≡ (if ks == js && k == j then some op else find js j w)
  unfolding find store ops_of
  find-store ks js k j op w = ground (
    arith,
    lookup-insert ks js (insert k op (ops_of ks w)) w,
    lookup-insert k j op (ops_of ks w),
    nat_beq_iff ks js,
    bytes_beq_iff k j,
  )

  pub find-empty : (ks : ℕ) (k : Bytes) → find ks k [] ≡ none
  unfolding find ops_of lookup
  find-empty ks k = refl

  pub find-has_writes :
      (ks : ℕ) (k : Bytes) (w : WriteSet V) → has_writes w ≡ false → find ks k w ≡ none
  unfolding find ops_of has_writes lookup
  find-has_writes ks k [] h = refl
  find-has_writes ks k ((js, []) ∷ w) h = ground (arith, find-has_writes ks k w h)
  find-has_writes ks k ((js, op ∷ ops) ∷ w) h = cc

  All-insert :
      (ks : ℕ) (ops : Assoc Bytes V) (w : WriteSet V)
      → Distinct ops
      → All (λ p. Distinct p.1) w
      → All (λ p. Distinct p.1) (insert ks ops w)
  unfolding insert
  All-insert ks ops [] d a = (d, tt)
  All-insert ks ops ((js, old) ∷ w) d a = ground (arith, All-insert ks ops w d a.1)

  pub ops_of-Distinct :
      (ks : ℕ) (w : WriteSet V) → All (λ p. Distinct p.1) w → Distinct (ops_of ks w)
  unfolding ops_of lookup
  ops_of-Distinct ks [] a = tt
  ops_of-Distinct ks ((js, old) ∷ w) a = ground (arith, ops_of-Distinct ks w a.1)

  pub store-IsDistinct :
      (ks : ℕ) (k : Bytes) (op : V) (w : WriteSet V) → IsDistinct w → IsDistinct (store ks k op w)
  unfolding store
  store-IsDistinct ks k op w d = (
    insert-Distinct ks _ w d.0,
    All-insert ks _ w (insert-Distinct k op _ (ops_of-Distinct ks w d.1)) d.1,
  )
