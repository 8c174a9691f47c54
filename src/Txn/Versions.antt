-- ===== src/Txn/Versions.antt =====
-- txn/store.go and the lower half of txn/tx.go: reading and publishing versions through an engine
-- transaction.
pub mod ChainKeys
pub mod Scans
pub mod History
pub mod Clean
pub mod Archive
pub mod Kept
pub mod PublishOp
pub mod Apart
pub mod PublishAll
pub mod Conflicts
use mini_graph_db.Prelude.{
  ℕ, zero, suc, ◌+◌, ◌-◌, Bool, true, false, not, Option, none, some, List, [], ◌∷◌, ◌++◌,
  if◌then◌else◌, length, drop, ltb, leb, ◌==◌, nat_eq, ◌||◌, ◌&&◌,
}
use mini_graph_db.Prelude.Bytes.{Bytes, uint64, bytes_beq}
use mini_graph_db.Prelude.Assoc.{Assoc}
use mini_graph_db.Prelude.Int.{ℤ, pos, inc, dec}
use mini_graph_db.Storage.{
  Keyspace, Error, Result, ok, err, ◌>>=◌, ◌>>◌, err_not_found, conflict, constraint_violation,
  is_not_found, ks_version, invalid_argument,
}
use mini_graph_db.Storage.WriteSet.{WriteSet}
use mini_graph_db.Memory.Snapshot.{Item}
use mini_graph_db.Txn.Backend.{Backend}
use mini_graph_db.Txn.Version.{
  Head, visible, decode_head, encode_head, decode_chain, encode_chain, chain_prefix, chain_key,
}

-- `writeOp` of tx.go.
pub record WriteOp : Type 0 where
  pub val : Bytes
  pub del : Bool
  pub unique : Bool
  pub shadowed : Bool

-- `checkKS`.
unfoldable pub check_ks : Keyspace → Result (Unit {0})
check_ks ks = if ks == ks_version then err invalid_argument else ok tt

-- `bytes.HasPrefix`.
unfoldable pub has_prefix : Bytes → Bytes → Bool
has_prefix [] k = true
has_prefix (x ∷ xs) [] = false
has_prefix (x ∷ xs) (y ∷ ys) = x == y && has_prefix xs ys

-- The head that `Get` gave, `none` where there is no record.
unfoldable pub head_of : Result Bytes → Result (Option Head)
head_of (ok raw) = ok (some (decode_head raw))
head_of (err e) = if is_not_found e then ok none else err e

-- `isChain` stands for the loop's test on the key.
abbrev pub is_chain_of : Bytes → Bytes → Bool
is_chain_of prefix k = has_prefix prefix k && length k == length prefix + 8

-- The loop of `loadChain` over the items from the prefix on.
unfoldable pub collect : Bytes → List Item → Result (List Head)
collect prefix [] = ok []
collect prefix ((k, v) ∷ l) =
    let rest = collect prefix l in
    if is_chain_of prefix k
    then (do
      h ← decode_chain v
      chain ← rest
      ok (record h { create = uint64 (drop (length prefix) k) } ∷ chain))
    else ok []

-- The loop of `visiblePayload`.
abbrev pub better : Head → Option Head → Option Head
better v none = some v
better v (some best) = if ltb best.create v.create then some v else some best

unfoldable pub best_visible : ℕ → List Head → Option Head → Option Head
best_visible snap [] best = best
best_visible snap (v ∷ chain) best =
    best_visible snap chain (if visible v.create v.delete snap then better v best else best)

abbrev pub payload_of : Option Head → Option Bytes
payload_of none = none
payload_of (some h) = some h.payload

-- `ok && h.create <= snap && h.delete != 0 && h.delete <= snap`.
abbrev pub gone_at : ℕ → Head → Bool
gone_at snap h = leb h.create snap && (not (h.delete == 0) && leb h.delete snap)

unfoldable pub visible_payload : Option Head → List Head → ℕ → Option Bytes
unfolding best_visible
visible_payload none chain snap = payload_of (best_visible snap chain none)
visible_payload (some h) chain snap =
    if visible h.create h.delete snap
    then some h.payload
    else if gone_at snap h
    then none
    else payload_of (best_visible snap chain none)

-- `delta` of `publish`, and the transaction written so far.
abbrev pub Published : Type 0 → Type 0
Published T = ℤ × T

module _ (b : Backend) where
  open b use {Tx, get, put, scan}

  unfoldable pub read_head : Tx → Keyspace → Bytes → Result (Option Head)
  unfolding head_of
  read_head t ks key = head_of (get t ks key)

  unfoldable pub load_chain : Tx → Keyspace → Bytes → Result (List Head)
  load_chain t ks key = do
    items ← scan t ks_version (chain_prefix ks key)
    collect (chain_prefix ks key) items

  unfoldable pub resolve : Tx → Keyspace → Bytes → Option Head → ℕ → Result (Option Bytes)
  resolve t ks key none snap = ok none
  resolve t ks key (some h) snap =
      if visible h.create h.delete snap
      then ok (some h.payload)
      else if gone_at snap h
      then ok none
      else do chain ← load_chain t ks key; ok (visible_payload (some h) chain snap)

  -- `readAt`, on the transaction that it begins.
  unfoldable pub read_at : Tx → Keyspace → Bytes → ℕ → Result Bytes
  read_at t ks key snap = do
    h ← read_head t ks key
    payload ← resolve t ks key h snap
    elim payload [ none ↦ err err_not_found | some v ↦ ok v ]

  -- The body of the loops of `validate`; the state is the first conflict met.
  unfoldable pub validate_op : ℕ → Option Head → WriteOp → Option Error → Result (Option Error)
  validate_op snap none op first = ok first
  validate_op snap (some h) op first =
      if ltb snap h.create || (not (h.delete == 0) && ltb snap h.delete)
      then (if op.unique
          then err constraint_violation
          else ok (elim first [ none ↦ some conflict | some e ↦ some e ]))
      else if op.unique && (not op.del && (h.delete == 0 && not op.shadowed))
      then err constraint_violation
      else ok first

  unfoldable pub validate_ops :
      Tx → ℕ → Keyspace → Assoc Bytes WriteOp → Option Error → Result (Option Error)
  validate_ops t snap ks [] first = ok first
  validate_ops t snap ks ((k, op) ∷ ops) first = do
    h ← read_head t ks k
    first' ← validate_op snap h op first
    validate_ops t snap ks ops first'

  unfoldable pub validate_all : Tx → ℕ → WriteSet WriteOp → Option Error → Result (Option Error)
  validate_all t snap [] first = ok first
  validate_all t snap ((ks, ops) ∷ w) first = do
    first' ← validate_ops t snap ks ops first
    validate_all t snap w first'

  -- `return conflict`.
  abbrev verdict : Option Error → Result (Unit {0})
  verdict none = ok tt
  verdict (some e) = err e

  unfoldable pub validate : Tx → ℕ → WriteSet WriteOp → Result (Unit {0})
  validate t snap w = do first ← validate_all t snap w none; verdict first

  unfoldable pub archive : Tx → Keyspace → Bytes → Head → ℕ → Result Tx
  archive t ks key h cts =
      let del = if h.delete == 0 then cts else h.delete in
      put t ks_version (chain_key ks key h.create) (encode_chain del h.payload)

  abbrev archive_head : Tx → Keyspace → Bytes → Option Head → ℕ → Result Tx
  archive_head t ks key none cts = ok t
  archive_head t ks key (some h) cts = archive t ks key h cts

  abbrev pub is_live : Option Head → Bool
  is_live none = false
  is_live (some h) = h.delete == 0

  abbrev delete_head : Tx → Keyspace → Bytes → Option Head → ℕ → ℤ → Result (Published Tx)
  delete_head t ks key none cts delta = ok (delta, t)
  delete_head t ks key (some h) cts delta =
      if h.delete == 0
      then (do u ← put t ks key (encode_head h.create cts h.payload); ok (dec delta, u))
      else ok (delta, t)

  -- The body of the loops of `publish`.
  unfoldable pub publish_op : Tx → ℕ → Keyspace → Bytes → WriteOp → ℤ → Result (Published Tx)
  unfolding read_head archive
  publish_op t cts ks key op delta = do
    h ← read_head t ks key
    if op.del then delete_head t ks key h cts delta else (do
      u ← archive_head t ks key h cts
      v ← put u ks key (encode_head cts 0 op.val)
      ok (if is_live h then delta else inc delta, v))

  unfoldable pub publish_ops : Tx → ℕ → Keyspace → Assoc Bytes WriteOp → ℤ → Result (Published Tx)
  publish_ops t cts ks [] delta = ok (delta, t)
  publish_ops t cts ks ((k, op) ∷ ops) delta = do
    p ← publish_op t cts ks k op delta
    publish_ops p.1 cts ks ops p.0

  unfoldable pub publish : Tx → ℕ → WriteSet WriteOp → ℤ → Result (Published Tx)
  publish t cts [] delta = ok (delta, t)
  publish t cts ((ks, ops) ∷ w) delta = do p ← publish_ops t cts ks ops delta; publish p.1 cts w p.0
