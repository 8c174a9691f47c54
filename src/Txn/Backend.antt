-- ===== src/Txn/Backend.antt =====
-- storage.Tx and storage.Engine (storage/engine.go) as the manager uses them: operations, and the
-- laws that an engine promises.
use mini_graph_db.Prelude.{Option, none, some, List, ◌≡◌, ◌==◌, nat_eq, if◌then◌else◌, ◌&&◌}
use mini_graph_db.Prelude.Bytes.{Bytes, bytes_eq}
use mini_graph_db.Prelude.Assoc.{lookup}
use mini_graph_db.Storage.{Keyspace, Result, ok}
use mini_graph_db.Memory.Space.{at_least}
use mini_graph_db.Memory.Snapshot.{Item}
use mini_graph_db.Memory.Snapshot.Items.{IsOrdered}
use mini_graph_db.Memory.Engine.{found}

-- An open transaction of the engine, as a value that each write replaces. A read-only transaction
-- reads as one that has written nothing.
pub record Backend : Type 1 where
  pub Tx : Type 0
  pub get : Tx → Keyspace → Bytes → Result Bytes
  pub put : Tx → Keyspace → Bytes → Bytes → Result Tx
  pub delete : Tx → Keyspace → Bytes → Result Tx
  -- The items that a cursor gives from `Seek(target)` on.
  pub scan : Tx → Keyspace → Bytes → Result (List Item)
  -- What the transaction sees under a key.
  pub view : Tx → Keyspace → Bytes → Option Bytes
  -- The transaction is open for writes.
  pub IsOpen : Tx → Type 0
  pub get_view : (t : Tx) (ks : Keyspace) (k : Bytes) → IsOpen t → get t ks k ≡ found (view t ks k)
  pub put_view :
      (t : Tx) (ks : Keyspace) (k v : Bytes)
      → IsOpen t
      → (u : Tx) × (put t ks k v ≡ ok u)
        × IsOpen u
        × ((js : Keyspace) (j : Bytes)
            → view u js j ≡ (if ks == js && k == j then some v else view t js j))
  pub delete_view :
      (t : Tx) (ks : Keyspace) (k : Bytes)
      → IsOpen t
      → (u : Tx) × (delete t ks k ≡ ok u)
        × IsOpen u
        × ((js : Keyspace) (j : Bytes)
            → view u js j ≡ (if ks == js && k == j then none else view t js j))
  pub scan_view :
      (t : Tx) (ks : Keyspace) (target : Bytes)
      → IsOpen t
      → (l : List Item) × (scan t ks target ≡ ok l)
        × IsOrdered l
        × ((j : Bytes) → lookup j l ≡ (if at_least target j then view t ks j else none))
  -- The engine between transactions. The manager alone writes to it, one transaction at a time
  -- (`commitMu`); a transaction that is rolled back leaves it as it was.
  -- A `Commit` that returns an error has published nothing: the engine has no AfterCommit hook, which
  -- runs behind the publication and may fail.
  pub Eng : Type 0
  pub begin : Eng → Result Tx
  pub commit : Tx → Result Eng
  pub holds : Eng → Keyspace → Bytes → Option Bytes
  pub IsReady : Eng → Type 0
  pub begin_view :
      (e : Eng)
      → IsReady e
      → (t : Tx) × (begin e ≡ ok t)
        × IsOpen t
        × ((js : Keyspace) (j : Bytes) → view t js j ≡ holds e js j)
  pub commit_view :
      (t : Tx)
      → IsOpen t
      → (e : Eng) × (commit t ≡ ok e)
        × IsReady e
        × ((js : Keyspace) (j : Bytes) → holds e js j ≡ view t js j)
