-- ===== src/Txn/Manager/Refines.antt =====
-- A commit of the manager against the abstract store: what each snapshot reads of each key.
use mini_graph_db.Prelude.{
  ℕ, ◌+◌, ◌^◌, ◌<◌, false, not, ◌≡◌, inl, inr, refl, arith, nat_eq, ◌||◌, ◌∙◌, Bool-cases, ap,
}
use mini_graph_db.Prelude.Bytes.{Bytes}
use mini_graph_db.Storage.{Keyspace, Result, ok, err}
use mini_graph_db.Storage.WriteSet.{WriteSet, find, has_writes}
use mini_graph_db.Memory.Engine.{run_hook}
use mini_graph_db.Txn.Backend.{Backend}
use mini_graph_db.Txn.Versions.{WriteOp, validate}
use mini_graph_db.Txn.Versions.PublishAll.{IsUser}
use mini_graph_db.Txn.Manager.{
  Manager, Reply, touch, after_touch, commit, commit_writes, read, wrap,
}
use mini_graph_db.Txn.Manager.Isolation.{
  begun, reading, write_versions-Committed, write_versions-err,
}
use mini_graph_db.Txn.Manager.Calls.{Keeps, touch-Keeps}
use mini_graph_db.Storage.WriteSet.{find-has_writes}
use mini_graph_db.Txn.Manager.Snapshots.{IsSound, Keeps-Extends, body}

module _ (b : Backend) where
  open b use {Eng}

  -- The abstract store of users' keys: what a snapshot reads.
  abbrev pub Store : Type 0
  Store = Keyspace → Bytes → ℕ → Result Bytes

  abbrev pub store_of : Manager Eng → Store
  store_of m js j snap = read b m.eng js j snap

  -- The abstract commit at `cts` of a write set: the snapshots from `cts` on read its writes.
  abbrev pub write_at : ℕ → WriteSet WriteOp → Store → Store
  write_at cts w store js j snap = reading b cts (find js j w) snap (store js j snap)

  -- The stores agree on users' keys.
  pub record SameStore (x y : Store) : Type 0 where
    pub same : (js : Keyspace) (j : Bytes) (snap : ℕ) → IsUser js j → x js j snap ≡ y js j snap

  writes-shows :
      (m : Manager Eng) (i : ℕ) (before : Result (Unit {0}))
      → IsSound b m
      → m.commit_ts + 1 < 2 ^ 64
      → (commit_writes b m i before).0 ≡ ok tt
      → SameStore
          (store_of (commit_writes b m i before).1)
          (write_at (m.commit_ts + 1) (m.tx i).writes (store_of m))
  writes-shows m i (err x) s bounded done = cc
  writes-shows m i (ok _) s bounded done =
      go (validate b (begun b m.eng s.stored.0) (m.tx i).snapshot (m.tx i).writes) refl
    where
      cts : ℕ
      cts = wrap (m.commit_ts + 1)

      go :
          (r : Result (Unit {0}))
          → validate b (begun b m.eng s.stored.0) (m.tx i).snapshot (m.tx i).writes ≡ r
          → SameStore
              (store_of (commit_writes b m i (ok tt)).1)
              (write_at (m.commit_ts + 1) (m.tx i).writes (store_of m))
      go (err x) at =
          let failed =
            write_versions-err b m.eng s.stored.0 (m.tx i).snapshot cts m.next_txn_id
              (m.tx i).writes x at in
          absurd (ground (arith, failed, done))
      go (ok _) at =
          let fits = (s.txs i).writes_fit in
          let (q, written, c) =
            write_versions-Committed b m.eng s.stored.0 m.commit_ts cts (m.tx i).snapshot
              m.next_txn_id (m.tx i).writes (omega (arith, bounded)) (omega arith) s.stored.1 fits.0
              fits.1 at in
          rw written (record {
            same = λ js j snap user.
                c.reads js j snap user
                ∙ ap (λ t. reading b t (find js j (m.tx i).writes) snap (store_of m js j snap))
                    (omega (arith, bounded));
          })

  body-shows :
      (m : Manager Eng) (i : ℕ)
      → IsSound b m
      → m.commit_ts + 1 < 2 ^ 64
      → (m.tx i).ro ≡ false
      → (body b i m).0 ≡ ok tt
      → SameStore
          (store_of (body b i m).1)
          (write_at (m.commit_ts + 1) (m.tx i).writes (store_of m))
  body-shows m i s bounded writer done =
      elim (Bool-cases ((m.tx i).ro || not (has_writes (m.tx i).writes))) [
        | inl nothing ↦ rw nothing (record {
          same = λ js j snap user.
              rw (find-has_writes js j (m.tx i).writes (ground (arith, nothing, writer))) refl;
        })
        | inr some_writes ↦
            rw some_writes
              (writes-shows m i (run_hook m.hooks.before_commit) s bounded (rw some_writes at done))
      ]

  touch-same :
      (m : Manager Eng) (i now : ℕ)
      → (touch m i now).0 ≡ ok tt
      → (((touch m i now).1.tx i).writes ≡ (m.tx i).writes)
        × (((touch m i now).1.tx i).ro ≡ (m.tx i).ro)
  unfolding touch
  touch-same m i now done = (ground (arith, done), ground (arith, done))

  -- On a sound manager, a commit of a writing transaction that succeeds is the abstract commit at the
  -- next timestamp, with all the writes of the transaction at once and no other change to users' keys;
  -- one that succeeds without writes changes nothing. The next timestamp must not overflow.
  pub commit-Refines :
      (m : Manager Eng) (i now : ℕ)
      → IsSound b m
      → m.commit_ts + 1 < 2 ^ 64
      → (m.tx i).ro ≡ false
      → (commit b m i now).0 ≡ ok tt
      → SameStore
          (store_of (commit b m i now).1)
          (write_at (m.commit_ts + 1) (m.tx i).writes (store_of m))
  unfolding commit
  commit-Refines m i now s bounded writer done =
      go (touch m i now) (touch-Keeps m i now) (touch-same m i now) done
    where
      go :
          (r : Reply Eng (Unit {0}))
          → Keeps m i r.1
          → (r.0 ≡ ok tt → ((r.1.tx i).writes ≡ (m.tx i).writes) × ((r.1.tx i).ro ≡ (m.tx i).ro))
          → (after_touch r (body b i)).0 ≡ ok tt
          → SameStore
              (store_of (after_touch r (body b i)).1)
              (write_at (m.commit_ts + 1) (m.tx i).writes (store_of m))
      go (err e, n) k kept done = cc
      go (ok _, n) k kept done =
          let (writes, ro) = kept refl in
          let shows =
            body-shows n i (Keeps-Extends b 0 m n i s k).sound (rw k.same_ts bounded) (ro ∙ writer)
              done in
          record {
            same = λ js j snap user.
                shows.same js j snap user ∙ rw (writes, k.same_ts, k.same_eng) refl;
          }
