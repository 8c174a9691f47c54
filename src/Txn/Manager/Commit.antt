-- ===== src/Txn/Manager/Commit.antt =====
-- `Commit` of the manager: what it leaves behind when it fails, and when it does not.
use mini_graph_db.Prelude.{
  ℕ, not, none, ◌≡◌, inl, inr, refl, arith, ◌||◌, Bool-cases, if◌then◌else◌,
}
use mini_graph_db.Prelude.Int.{ℤ}
use mini_graph_db.Storage.{Error, Result, ok, err}
use mini_graph_db.Storage.WriteSet.{has_writes}
use mini_graph_db.Memory.Engine.{run_hook}
use mini_graph_db.Txn.Backend.{Backend}
use mini_graph_db.Txn.Manager.{
  Manager, commit, touch, commit_writes, published, Reply, after_touch, finish,
}

-- What the other transactions and later ones see of the manager.
pub record SameState {E : Type 0} (m n : Manager E) : Type 0 where
  pub same_eng : n.eng ≡ m.eng
  pub same_commit_ts : n.commit_ts ≡ m.commit_ts
  pub same_live_keys : n.live_keys ≡ m.live_keys

module _ (b : Backend) where
  touch-SameState : (m : Manager b.Eng) (i now : ℕ) → SameState m (touch m i now).1
  unfolding touch
  touch-SameState m i now = record {
    same_eng = ground arith;
    same_commit_ts = ground arith;
    same_live_keys = ground arith;
  }

  hooks-touch : (m : Manager b.Eng) (i now : ℕ) → (touch m i now).1.hooks ≡ m.hooks
  unfolding touch
  hooks-touch m i now = ground arith

  published-err :
      (m : Manager b.Eng) (i cts : ℕ) (r : Result (ℤ × b.Eng)) (x : Error)
      → m.hooks.after_commit ≡ none
      → (published b m i cts r).0 ≡ err x
      → (published b m i cts r).1 ≡ m
  published-err m i cts (err e) x no_hook e' = refl
  published-err m i cts (ok d) x no_hook e' = ground (arith, no_hook, e')

  commit_writes-err :
      (m : Manager b.Eng) (i : ℕ) (r : Result (Unit {0})) (x : Error)
      → m.hooks.after_commit ≡ none
      → (commit_writes b m i r).0 ≡ err x
      → (commit_writes b m i r).1 ≡ m
  commit_writes-err m i (err e) x no_hook e' = refl
  commit_writes-err m i (ok _) x no_hook e' = published-err m i _ _ x no_hook e'

  -- `Commit` from `touch` on.
  abbrev body : ℕ → Manager b.Eng → Reply b.Eng (Unit {0})
  body i m =
      if (m.tx i).ro || not (has_writes (m.tx i).writes)
      then (ok tt, finish m i)
      else commit_writes b m i (run_hook m.hooks.before_commit)

  body-err :
      (m : Manager b.Eng) (i : ℕ) (x : Error)
      → m.hooks.after_commit ≡ none
      → (body i m).0 ≡ err x
      → (body i m).1 ≡ m
  body-err m i x no_hook e = elim (Bool-cases ((m.tx i).ro || not (has_writes (m.tx i).writes))) [
    | inl idle ↦ absurd (ground (arith, e, idle))
    | inr busy ↦
        rw busy (commit_writes-err m i (run_hook m.hooks.before_commit) x no_hook (rw busy at e))
  ]

  after_touch-SameState :
      (m : Manager b.Eng) (i : ℕ) (x : Error) (r : Reply b.Eng (Unit {0}))
      → r.1.hooks.after_commit ≡ none
      → SameState m r.1
      → (after_touch r (body i)).0 ≡ err x
      → SameState m (after_touch r (body i)).1
  after_touch-SameState m i x (err e, m') no_hook same failed = same
  after_touch-SameState m i x (ok _, m') no_hook same failed =
      rw (body-err m' i x no_hook failed) same

  -- With no AfterCommit hook of the manager, and over an engine whose own Commit has published nothing
  -- when it returns an error (it has no AfterCommit hook), a commit that returns an error, by a conflict,
  -- a violated unique key, that engine or an idle timeout, leaves the engine, the commit timestamp and the live-key
  -- count as they were.
  pub commit-SameState :
      (m : Manager b.Eng) (i now : ℕ) (x : Error)
      → m.hooks.after_commit ≡ none
      → (commit b m i now).0 ≡ err x
      → SameState m (commit b m i now).1
  unfolding commit
  commit-SameState m i now x no_hook failed =
      after_touch-SameState m i x (touch m i now) (rw (hooks-touch m i now) no_hook)
        (touch-SameState m i now) failed
