-- ===== src/Txn/Manager/Others.antt =====
-- What a commit, or a call that keeps the manager, leaves of a transaction that it is not about.
use mini_graph_db.Prelude.{
  ℕ, ◌+◌, ◌≤◌, not, ◌≡◌, ◌≢◌, inl, inr, refl, arith, nat_eq, ◌||◌, ◌∙◌, Bool-cases,
}
use mini_graph_db.Prelude.Int.{ℤ}
use mini_graph_db.Storage.{Result, ok, err}
use mini_graph_db.Storage.WriteSet.{has_writes}
use mini_graph_db.Memory.Engine.{run_hook}
use mini_graph_db.Txn.Backend.{Backend}
use mini_graph_db.Txn.Manager.{
  Manager, Reply, touch, after_touch, commit, commit_writes, published, finish, write_versions,
  wrap,
}
use mini_graph_db.Txn.Manager.Calls.{Keeps, Keeps-refl, touch-Keeps}
use mini_graph_db.Txn.Manager.Snapshots.{body, ended-Keeps, finish-Keeps}

module _ (b : Backend) where
  open b use {Eng}

  -- What a call that is not about transaction `i` leaves of it.
  pub record Leaves (m n : Manager Eng) (i : ℕ) : Type 0 where
    pub same_tx : n.tx i ≡ m.tx i
    pub opt : n.opt ≡ m.opt
    pub handles : m.next ≤ n.next

  pub Keeps-Leaves : (m n : Manager Eng) (j i : ℕ) → i ≢ j → Keeps m j n → Leaves m n i
  Keeps-Leaves m n j i apart k = record {
    same_tx = k.others i apart;
    opt = k.same_opt;
    handles = k.next_grows;
  }

  pub Leaves-trans : (m n o : Manager Eng) (i : ℕ) → Leaves m n i → Leaves n o i → Leaves m o i
  Leaves-trans m n o i x y = record {
    same_tx = y.same_tx ∙ x.same_tx;
    opt = y.opt ∙ x.opt;
    handles = omega (arith, x.handles, y.handles);
  }

  published-Leaves :
      (m : Manager Eng) (j cts i : ℕ) (r : Result (ℤ × Eng))
      → i ≢ j
      → Leaves m (published b m j cts r).1 i
  published-Leaves m j cts i (err e) apart = Keeps-Leaves m m j i apart (Keeps-refl m j)
  published-Leaves m j cts i (ok q) apart = record {
    same_tx = (ended-Keeps b m j cts).others i apart;
    opt = refl;
    handles = omega arith;
  }

  commit_writes-Leaves :
      (m : Manager Eng) (j i : ℕ) (before : Result (Unit {0}))
      → i ≢ j
      → Leaves m (commit_writes b m j before).1 i
  commit_writes-Leaves m j i (err e) apart = Keeps-Leaves m m j i apart (Keeps-refl m j)
  commit_writes-Leaves m j i (ok _) apart =
      published-Leaves m j (wrap (m.commit_ts + 1)) i
        (write_versions b m.eng (m.tx j).snapshot (wrap (m.commit_ts + 1)) m.next_txn_id
          (m.tx j).writes)
        apart

  body-Leaves : (m : Manager Eng) (j i : ℕ) → i ≢ j → Leaves m (body b j m).1 i
  body-Leaves m j i apart = elim (Bool-cases ((m.tx j).ro || not (has_writes (m.tx j).writes))) [
    | inl nothing ↦ rw nothing (Keeps-Leaves m (finish m j) j i apart (finish-Keeps b m j))
    | inr some_writes ↦
        rw some_writes (commit_writes-Leaves m j i (run_hook m.hooks.before_commit) apart)
  ]

  after-Leaves :
      (m : Manager Eng) (j i : ℕ) (r : Reply Eng (Unit {0}))
      → i ≢ j
      → Leaves m r.1 i
      → Leaves m (after_touch r (body b j)).1 i
  after-Leaves m j i (ok _, n) apart x =
      Leaves-trans m n (body b j n).1 i x (body-Leaves n j i apart)
  after-Leaves m j i (err e, n) apart x = x

  pub commit-Leaves : (m : Manager Eng) (j now i : ℕ) → i ≢ j → Leaves m (commit b m j now).1 i
  unfolding commit
  commit-Leaves m j now i apart =
      after-Leaves m j i (touch m j now) apart (Keeps-Leaves m _ j i apart (touch-Keeps m j now))
