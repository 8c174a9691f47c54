-- ===== src/Txn/Versions/PublishAll.antt =====
-- `publish`: every write of a write set, at one commit timestamp.
use mini_graph_db.Prelude.{
  ℕ, ◌^◌, ◌<◌, false, Option, none, some, [], ◌∷◌, ◌≡◌, ◌≢◌, ◌⊎◌, refl, arith, All, if◌then◌else◌,
  ltb, nat_eq, nat_beq_iff, ◌==◌, ◌&&◌, ◌∙◌, Bool-cases, inl, inr, length,
}
use mini_graph_db.Prelude.Bytes.{Bytes, bytes_eq, bytes_beq_iff}
use mini_graph_db.Prelude.Int.{ℤ}
use mini_graph_db.Prelude.Assoc.{Assoc, lookup, Distinct}
use mini_graph_db.Storage.{Keyspace, ok, ks_version}
use mini_graph_db.Storage.WriteSet.{WriteSet, find, find-empty, ops_of, IsDistinct}
use mini_graph_db.Txn.Backend.{Backend}
use mini_graph_db.Txn.Versions.{WriteOp, Published, publish_op, publish_ops, publish, read_at}
use mini_graph_db.Txn.Versions.Clean.{IsKept}
use mini_graph_db.Txn.Versions.PublishOp.{outcome, IsPublished, publish_op-IsPublished}
use mini_graph_db.Txn.Versions.Apart.{
  IsApart, IsApart-refl, IsApart-trans, IsKept-IsApart, read_at-IsApart, publish_op-IsApart,
}

abbrev or_else : Option WriteOp → Option WriteOp → Option WriteOp
or_else none p = p
or_else (some op) p = some op

-- A user's key that fits the encoding of chain keys.
pub record IsUser (js : Keyspace) (j : Bytes) : Type 0 where
  pub own : js ≢ ks_version
  pub short : length j < 2 ^ 32

-- The keys of a keyspace's writes, and of a write set, with records in order up to `ts`.
abbrev pub IsFit : (b : Backend) → ℕ → b.Tx → Keyspace → Assoc Bytes WriteOp → Type 0
IsFit b ts t ks ops = All (λ x. IsUser ks x.0 × IsKept b t ks x.0 ts) ops

abbrev pub AllFit : (b : Backend) → ℕ → b.Tx → WriteSet WriteOp → Type 0
AllFit b ts t w = All (λ x. IsFit b ts t x.0 x.1) w

module _ (b : Backend) (cts : ℕ) where
  -- What the commit at `cts` leaves of a key: without a write the key as it was; with one, records
  -- in order, the same at the snapshots before `cts`, and the write from then on.
  unfoldable pub Shows : b.Tx → b.Tx → Keyspace → Bytes → Option WriteOp → Type 0
  Shows t u js j none = IsApart b t u js j
  Shows t u js j (some op) =
      IsKept b u js j cts
      × ((snap : ℕ)
          → read_at b u js j snap ≡ (if ltb snap cts then read_at b t js j snap else outcome op))

  pub Shows-trans :
      (t u v : b.Tx) (js : Keyspace) (j : Bytes) (o p : Option WriteOp)
      → (o ≡ none) ⊎ (p ≡ none)
      → Shows t u js j o
      → Shows u v js j p
      → Shows t v js j (or_else o p)
  unfolding Shows
  Shows-trans t u v js j none none once x y = IsApart-trans b js j t u v x y
  Shows-trans t u v js j none (some op) once x y =
      (y.0, λ snap. ground (arith, y.1 snap, read_at-IsApart b t u js j x snap))
  Shows-trans t u v js j (some op) none once x y =
      (IsKept-IsApart b u v js j cts y x.0, λ snap. read_at-IsApart b u v js j y snap ∙ x.1 snap)
  Shows-trans t u v js j (some op) (some op') (inl e) x y = cc
  Shows-trans t u v js j (some op) (some op') (inr e) x y = cc

  module _ (ts : ℕ) (later : ts < cts) (bounded : cts < 2 ^ 64) where
    abbrev written : Keyspace → Bytes → Keyspace → Bytes → WriteOp → Option WriteOp
    written ks key js j op = if ks == js && key == j then some op else none

    publish_op-Shows :
        (t : b.Tx) (ks : Keyspace) (key : Bytes) (op : WriteOp) (delta : ℤ)
        → IsUser ks key
        → IsKept b t ks key ts
        → (p : Published b.Tx) × (publish_op b t cts ks key op delta ≡ ok p)
          × b.IsOpen p.1
          × ((js : Keyspace) (j : Bytes) → IsUser js j → Shows t p.1 js j (written ks key js j op))
    unfolding Shows IsPublished
    publish_op-Shows t ks key op delta user kept =
        let (p, e, kept', reads) =
          publish_op-IsPublished b ks key user.own t ts cts op delta kept later bounded in
        (
          p,
          e,
          kept'.opened,
          λ js j other. elim (Bool-cases (ks == js && key == j)) [
            | inl same ↦
                let ks_eq : ks ≡ js = ground (arith, same) in
                let key_eq : key ≡ j = ground (arith, same, bytes_beq_iff key j) in
                rw same (rw (← ks_eq, ← key_eq) (kept', reads))
            | inr differ ↦ rw differ (
                publish_op-IsApart b ks js key j user.own other.own user.short other.short differ t
                  ts cts op delta kept later bounded p e)
          ],
        )

    -- What a write to one key leaves of the other writes' keys.
    IsFit-after :
        (t u : b.Tx) (ks : Keyspace) (key : Bytes) (op : WriteOp) (ops : Assoc Bytes WriteOp)
        → ((js : Keyspace) (j : Bytes) → IsUser js j → Shows t u js j (written ks key js j op))
        → lookup key ops ≡ none
        → IsFit b ts t ks ops
        → IsFit b ts u ks ops
    unfolding lookup Shows
    IsFit-after t u ks key op [] shows once fit = tt
    IsFit-after t u ks key op ((k, op') ∷ ops) shows once fit =
        let other : (key == k) ≡ false =
          ground (arith, once, bytes_beq_iff key k, bytes_beq_iff k key) in
        let apart : IsApart b t u ks k = rw (unwritten ks k other) at (shows ks k fit.0.0) in
        (
          (fit.0.0, IsKept-IsApart b t u ks k ts apart fit.0.1),
          IsFit-after t u ks key op ops shows (ground (arith, once)) fit.1,
        )
      where
        unwritten : (ks : Keyspace) (k : Bytes) → (key == k) ≡ false → written ks key ks k op ≡ none
        unwritten ks k other = ground (arith, other)

    in_space : Keyspace → Keyspace → Bytes → Assoc Bytes WriteOp → Option WriteOp
    in_space ks js j ops = if ks == js then lookup j ops else none

    in_space-nil : (ks js : Keyspace) (j : Bytes) → in_space ks js j [] ≡ none
    unfolding in_space lookup
    in_space-nil ks js j = ground arith

    in_space-cons :
        (ks js : Keyspace) (key j : Bytes) (op : WriteOp) (ops : Assoc Bytes WriteOp)
        → in_space ks js j ((key, op) ∷ ops)
          ≡ or_else (written ks key js j op) (in_space ks js j ops)
    unfolding in_space lookup
    in_space-cons ks js key j op ops = ground arith

    written_once :
        (ks js : Keyspace) (key j : Bytes) (op : WriteOp) (ops : Assoc Bytes WriteOp)
        → lookup key ops ≡ none
        → (written ks key js j op ≡ none) ⊎ (in_space ks js j ops ≡ none)
    unfolding in_space
    written_once ks js key j op ops once = elim (Bool-cases (key == j)) [
      | inl same ↦
          let gone : lookup j ops ≡ none = rw (← (bytes_beq_iff key j).0 same) once in
          inr (ground (arith, gone))
      | inr other ↦ inl (ground (arith, other))
    ]

    publish_ops-Shows :
        (ops : Assoc Bytes WriteOp) (t : b.Tx) (ks : Keyspace) (delta : ℤ)
        → b.IsOpen t
        → Distinct ops
        → IsFit b ts t ks ops
        → (p : Published b.Tx) × (publish_ops b t cts ks ops delta ≡ ok p)
          × b.IsOpen p.1
          × ((js : Keyspace) (j : Bytes) → IsUser js j → Shows t p.1 js j (in_space ks js j ops))
    unfolding publish_ops Shows
    publish_ops-Shows [] t ks delta o d fit =
        ((delta, t), refl, o, λ js j user. rw (in_space-nil ks js j) (IsApart-refl b js j t o))
    publish_ops-Shows ((key, op) ∷ ops) t ks delta o d fit =
        let (p, e, o', shows) = publish_op-Shows t ks key op delta fit.0.0 fit.0.1 in
        let (q, e', o'', shows') =
          publish_ops-Shows ops p.1 ks p.0 o' d.1
            (IsFit-after t p.1 ks key op ops shows d.0 fit.1) in
        (
          q,
          rw e e',
          o'',
          λ js j user. rw (in_space-cons ks js key j op ops) (
              Shows-trans t p.1 q.1 js j (written ks key js j op) (in_space ks js j ops)
                (written_once ks js key j op ops d.0) (shows js j user) (shows' js j user)),
        )

    find-cons :
        (ks js : Keyspace) (j : Bytes) (ops : Assoc Bytes WriteOp) (w : WriteSet WriteOp)
        → lookup ks w ≡ none
        → find js j ((ks, ops) ∷ w) ≡ or_else (in_space ks js j ops) (find js j w)
    unfolding find ops_of lookup in_space
    find-cons ks js j ops w once = ground (arith, once, nat_beq_iff ks js)

    found_once :
        (ks js : Keyspace) (j : Bytes) (ops : Assoc Bytes WriteOp) (w : WriteSet WriteOp)
        → lookup ks w ≡ none
        → (in_space ks js j ops ≡ none) ⊎ (find js j w ≡ none)
    unfolding find ops_of lookup in_space
    found_once ks js j ops w once = elim (Bool-cases (ks == js)) [
      | inl same ↦
          let gone : lookup js w ≡ none = rw (← (nat_beq_iff ks js).0 same) once in
          inr (ground (arith, gone))
      | inr other ↦ inl (ground (arith, other))
    ]

    IsFit-other :
        (t u : b.Tx) (ks is : Keyspace) (ops ops' : Assoc Bytes WriteOp)
        → ((js : Keyspace) (j : Bytes) → IsUser js j → Shows t u js j (in_space ks js j ops))
        → (ks == is) ≡ false
        → IsFit b ts t is ops'
        → IsFit b ts u is ops'
    unfolding in_space Shows
    IsFit-other t u ks is ops [] shows other fit = tt
    IsFit-other t u ks is ops ((k, op) ∷ ops') shows other fit =
        let apart : IsApart b t u is k = rw other at (shows is k fit.0.0) in
        (
          (fit.0.0, IsKept-IsApart b t u is k ts apart fit.0.1),
          IsFit-other t u ks is ops ops' shows other fit.1,
        )

    AllFit-after :
        (t u : b.Tx) (ks : Keyspace) (ops : Assoc Bytes WriteOp) (w : WriteSet WriteOp)
        → ((js : Keyspace) (j : Bytes) → IsUser js j → Shows t u js j (in_space ks js j ops))
        → lookup ks w ≡ none
        → AllFit b ts t w
        → AllFit b ts u w
    unfolding lookup
    AllFit-after t u ks ops [] shows once fit = tt
    AllFit-after t u ks ops ((is, ops') ∷ w) shows once fit = (
      IsFit-other t u ks is ops ops' shows (ground (arith, once, nat_beq_iff ks is)) fit.0,
      AllFit-after t u ks ops w shows (ground (arith, once)) fit.1,
    )

    -- Publishing a write set that holds no key twice at `cts`, over user keys whose records were written up to an earlier `ts`,
    -- meets no error. A snapshot before `cts` reads of every user key what it read before; from
    -- `cts` on a snapshot reads the writes of the set, and of every other key what it read before.
    pub publish-Shows :
        (w : WriteSet WriteOp) (t : b.Tx) (delta : ℤ)
        → b.IsOpen t
        → IsDistinct w
        → AllFit b ts t w
        → (p : Published b.Tx) × (publish b t cts w delta ≡ ok p)
          × b.IsOpen p.1
          × ((js : Keyspace) (j : Bytes) → IsUser js j → Shows t p.1 js j (find js j w))
    unfolding publish Shows
    publish-Shows [] t delta o d fit =
        ((delta, t), refl, o, λ js j user. rw (find-empty js j) (IsApart-refl b js j t o))
    publish-Shows ((ks, ops) ∷ w) t delta o d fit =
        let (p, e, o', shows) = publish_ops-Shows ops t ks delta o d.1.0 fit.0 in
        let (q, e', o'', shows') =
          publish-Shows w p.1 p.0 o' (d.0.1, d.1.1)
            (AllFit-after t p.1 ks ops w shows d.0.0 fit.1) in
        (
          q,
          rw e e',
          o'',
          λ js j user. rw (find-cons ks js j ops w d.0.0) (
              Shows-trans t p.1 q.1 js j (in_space ks js j ops) (find js j w)
                (found_once ks js j ops w d.0.0) (shows js j user) (shows' js j user)),
        )
