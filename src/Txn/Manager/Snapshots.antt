-- ===== src/Txn/Manager/Snapshots.antt =====
-- Snapshot isolation of the manager: no call of others changes what an open transaction reads.
use mini_graph_db.Prelude.{
  ℕ, ◌+◌, ◌^◌, ◌≤◌, ◌<◌, true, not, Option, none, some, [], ◌≡◌, inl, inr, refl, arith,
  if◌then◌else◌, nat_eq, nat_beq_iff, ◌==◌, ◌||◌, ◌∙◌, Bool-cases,
}
use mini_graph_db.Prelude.Bytes.{Bytes}
use mini_graph_db.Storage.{Keyspace, Result, ok, err}
use mini_graph_db.Storage.WriteSet.{find, has_writes}
use mini_graph_db.Memory.Engine.{run_hook}
use mini_graph_db.Txn.Backend.{Backend}
use mini_graph_db.Txn.Versions.{WriteOp, validate}
use mini_graph_db.Txn.Versions.PublishAll.{IsUser}
use mini_graph_db.Txn.Manager.{
  Manager, Tx, Reply, update, touch, after_touch, commit, commit_writes, finish, read, wrap,
}
use mini_graph_db.Txn.Manager.Isolation.{
  AllKept, begun, Saved, Committed, reading, write_versions-Committed, write_versions-err,
}
use mini_graph_db.Txn.Manager.Calls.{FitsTx, Keeps, Keeps-refl, set_tx-Keeps, touch-Keeps}

module _ (b : Backend) where
  open b use {IsReady, Eng}

  -- The engine is ready, and every user key's records were written up to `ts`.
  abbrev pub Stored : Eng → ℕ → Type 0
  Stored e ts = (r : IsReady e) × AllKept b (begun b e r) ts

  -- The manager between calls.
  pub record IsSound (m : Manager Eng) : Type 0 where
    pub stored : Stored m.eng m.commit_ts
    pub txs : (i : ℕ) → FitsTx m.commit_ts (m.tx i)

  -- What no call takes back: snapshots up to the commit timestamp read what they read. At most `k`
  -- commits lie between.
  pub record Extends (k : ℕ) (m n : Manager Eng) : Type 0 where
    pub sound : IsSound n
    pub grows : m.commit_ts ≤ n.commit_ts
    pub near : n.commit_ts ≤ m.commit_ts + k
    pub reads :
        (js : Keyspace) (j : Bytes) (snap : ℕ)
        → IsUser js j
        → snap ≤ m.commit_ts
        → read b n.eng js j snap ≡ read b m.eng js j snap
    pub saves : Saved b m.eng m.commit_ts → Saved b n.eng n.commit_ts

  pub Keeps-Extends : (k : ℕ) (m n : Manager Eng) (i : ℕ) → IsSound m → Keeps m i n → Extends k m n
  Keeps-Extends l m n i s k = record {
    sound = record {
      stored = rw (k.same_eng, k.same_ts) s.stored;
      txs = λ j. rw k.same_ts (elim (Bool-cases (j == i)) [
        | inl own ↦ rw ((nat_beq_iff j i).0 own) (k.own m.commit_ts (omega arith) (s.txs i))
        | inr other ↦ rw (k.others j (λ e. ground (arith, e, other))) (s.txs j)
      ]);
    };
    grows = rw k.same_ts (omega arith);
    near = rw k.same_ts (omega arith);
    reads = λ js j snap user h. rw k.same_eng refl;
    saves = λ z. rw (k.same_eng, k.same_ts) z;
  }

  pub Extends-trans :
      (k l t : ℕ) (m n o : Manager Eng) → k + l ≤ t → Extends k m n → Extends l n o → Extends t m o
  Extends-trans k l t m n o h x y = record {
    sound = y.sound;
    grows = omega (arith, x.grows, y.grows);
    near = omega (arith, h, x.near, y.near);
    saves = λ z. y.saves (x.saves z);
    reads = λ js j snap user earlier.
        y.reads js j snap user (omega (arith, earlier, x.grows)) ∙ x.reads js j snap user earlier;
  }

  -- A commit that publishes at a later timestamp.
  Committed-Extends :
      (m n : Manager Eng) (i cts : ℕ) (s : IsSound m)
      → Committed b m.eng s.stored.0 cts (m.tx i).writes n.eng
      → m.commit_ts < cts
      → cts ≤ m.commit_ts + 1
      → n.commit_ts ≡ cts
      → ((j : ℕ) → FitsTx cts (n.tx j))
      → Extends 1 m n
  Committed-Extends m n i cts s c later near ts txs = record {
    sound = record { stored = rw ts (c.ready, c.kept); txs = rw ts txs };
    grows = omega (arith, ts, later);
    near = omega (arith, ts, near);
    saves = λ z. rw ts c.saved;
    reads = λ js j snap user h.
        c.reads js j snap user
        ∙ reading-before cts (find js j (m.tx i).writes) snap _ (omega (arith, h, later));
  }
    where
      reading-before :
          (cts : ℕ) (o : Option WriteOp) (snap : ℕ) (before : Result Bytes)
          → snap < cts
          → reading b cts o snap before ≡ before
      reading-before cts none snap before h = refl
      reading-before cts (some op) snap before h = ground (arith, h)

  -- `Commit` from `touch` on.
  abbrev pub body : ℕ → Manager Eng → Reply Eng (Unit {0})
  body i m =
      if (m.tx i).ro || not (has_writes (m.tx i).writes)
      then (ok tt, finish m i)
      else commit_writes b m i (run_hook m.hooks.before_commit)

  pub ended-Keeps :
      (m : Manager Eng) (i cts : ℕ)
      → Keeps m i (record m {
        tx =
            update m.tx i
              (record (m.tx i) { done = true; writes = []; marks = []; commit_ts = cts });
      })
  ended-Keeps m i cts =
      set_tx-Keeps m i _
        (λ ts h f. record { began = f.began; writes_fit = ((tt, tt), tt); marks_fit = tt })

  pub finish-Keeps : (m : Manager Eng) (i : ℕ) → Keeps m i (finish m i)
  finish-Keeps m i =
      let k = ended-Keeps m i (m.tx i).commit_ts in
      record {
        same_eng = refl;
        same_ts = refl;
        same_hooks = refl;
        same_opt = refl;
        next_grows = omega arith;
        others = k.others;
        own = k.own;
      }

  FitsTx-later : (ts cts : ℕ) (t : Tx) → ts ≤ cts → FitsTx ts t → FitsTx cts t
  FitsTx-later ts cts t h f = record {
    began = omega (arith, h, f.began);
    writes_fit = f.writes_fit;
    marks_fit = f.marks_fit;
  }

  all-FitsTx :
      (m n : Manager Eng) (i ts : ℕ)
      → Keeps m i n
      → m.commit_ts ≤ ts
      → ((j : ℕ) → FitsTx ts (m.tx j))
      → (j : ℕ) → FitsTx ts (n.tx j)
  all-FitsTx m n i ts k h txs j = elim (Bool-cases (j == i)) [
    | inl own ↦ rw ((nat_beq_iff j i).0 own) (k.own ts h (txs i))
    | inr other ↦ rw (k.others j (λ e. ground (arith, e, other))) (txs j)
  ]

  writes-Extends :
      (m : Manager Eng) (i : ℕ) (before : Result (Unit {0}))
      → IsSound m
      → m.commit_ts + 1 < 2 ^ 64
      → Extends 1 m (commit_writes b m i before).1
  writes-Extends m i (err x) s bounded = Keeps-Extends 1 m m i s (Keeps-refl m i)
  writes-Extends m i (ok _) s bounded =
      go (validate b (begun b m.eng s.stored.0) (m.tx i).snapshot (m.tx i).writes) refl
    where
      cts : ℕ
      cts = wrap (m.commit_ts + 1)

      go :
          (r : Result (Unit {0}))
          → validate b (begun b m.eng s.stored.0) (m.tx i).snapshot (m.tx i).writes ≡ r
          → Extends 1 m (commit_writes b m i (ok tt)).1
      go (err x) at =
          rw
            (write_versions-err b m.eng s.stored.0 (m.tx i).snapshot cts m.next_txn_id
              (m.tx i).writes x at)
            (Keeps-Extends 1 m m i s (Keeps-refl m i))
      go (ok _) at =
          let fits = (s.txs i).writes_fit in
          let later : m.commit_ts < cts = omega (arith, bounded) in
          let (q, done, c) =
            write_versions-Committed b m.eng s.stored.0 m.commit_ts cts (m.tx i).snapshot
              m.next_txn_id (m.tx i).writes later (omega arith) s.stored.1 fits.0 fits.1 at in
          rw done (
            Committed-Extends m _ i cts s c later (omega arith) refl (
              all-FitsTx m _ i cts (ended-Keeps m i cts) (omega (arith, later))
                (λ j. FitsTx-later m.commit_ts cts (m.tx j) (omega (arith, later)) (s.txs j))))

  after-Extends :
      {A : Type 0} (m : Manager Eng) (i : ℕ) (r : Reply Eng (Unit {0}))
      (f : Manager Eng → Reply Eng A)
      → Keeps m i r.1
      → IsSound m
      → (IsSound r.1 → Extends 1 r.1 (f r.1).1)
      → Extends 1 m (after_touch r f).1
  after-Extends m i (ok _, n) f k s h =
      let x = Keeps-Extends 0 m n i s k in
      Extends-trans 0 1 1 m n (f n).1 (omega arith) x (h x.sound)
  after-Extends m i (err e, n) f k s h = Keeps-Extends 1 m n i s k

  body-Extends :
      (m : Manager Eng) (i : ℕ) → IsSound m → m.commit_ts + 1 < 2 ^ 64 → Extends 1 m (body i m).1
  body-Extends m i s bounded = elim (Bool-cases ((m.tx i).ro || not (has_writes (m.tx i).writes))) [
    | inl nothing ↦ rw nothing (Keeps-Extends 1 m (finish m i) i s (finish-Keeps m i))
    | inr some_writes ↦
        rw some_writes (writes-Extends m i (run_hook m.hooks.before_commit) s bounded)
  ]

  pub commit-Extends :
      (m : Manager Eng) (i now : ℕ)
      → IsSound m
      → m.commit_ts + 1 < 2 ^ 64
      → Extends 1 m (commit b m i now).1
  unfolding commit
  commit-Extends m i now s bounded =
      let k = touch-Keeps m i now in
      after-Extends m i (touch m i now) (body i) k s
        (λ s'. body-Extends (touch m i now).1 i s' (rw k.same_ts bounded))
