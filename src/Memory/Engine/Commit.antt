-- ===== src/Memory/Engine/Commit.antt =====
-- What `Commit` publishes, and that a commit that fails publishes nothing.
use mini_graph_db.Prelude.{ℕ, true, false, none, ◌≡◌, arith}
use mini_graph_db.Prelude.Bytes.{Bytes}
use mini_graph_db.Storage.{Keyspace, Error, ok, err}
use mini_graph_db.Storage.WriteSet.{find, find-has_writes}
use mini_graph_db.Memory.Snapshot.{value_in}
use mini_graph_db.Memory.Snapshot.Publish.{after, value_in-apply_writes}
use mini_graph_db.Memory.Engine.{Engine, commit}
use mini_graph_db.Memory.Engine.Step.{IsValid}

-- A commit of an open read-write transaction that returns no error leaves every key with what the
-- transaction last wrote to it, and a key that it did not write with what the latest snapshot held.
pub commit-publishes :
    (e : Engine) (i : ℕ) (ks : Keyspace) (k : Bytes)
    → IsValid e
    → (e.tx i).ro ≡ false
    → (commit e i).0 ≡ ok tt
    → value_in (commit e i).1.current ks k
      ≡ after (find ks k (e.tx i).writes) (value_in e.current ks k)
unfolding commit
commit-publishes e i ks k v rw_tx done = ground (
  arith,
  value_in-apply_writes (e.tx i).writes e.current ks k v.current_sound (v.txs i).writes_distinct,
  find-has_writes ks k (e.tx i).writes,
)

-- With no hook behind the commit, a commit that returns an error has changed nothing: the
-- transaction is still open if it was, and its writes are still private.
pub commit-err :
    (e : Engine) (i : ℕ) (x : Error)
    → e.hooks.after_commit ≡ none
    → (commit e i).0 ≡ err x
    → (commit e i).1 ≡ e
unfolding commit
commit-err e i x no_hook failed = ground arith

-- A commit that returns no error leaves the transaction finished, so that each later call of it is
-- refused.
pub commit-done :
    (e : Engine) (i : ℕ) → (commit e i).0 ≡ ok tt → (((commit e i).1).tx i).done ≡ true
unfolding commit
commit-done e i committed = ground arith
