-- ===== src/Tests/TxnTests.antt =====
-- The transaction manager's encodings, and a write published over the memory engine.
use mini_graph_db.Prelude.{
  [], ◌∷◌, ◌≡◌, ◌≢◌, arith, false, none, some, refl, inl, ◌∙◌, if◌then◌else◌, ◌==◌, nat_eq, ◌&&◌,
}
use mini_graph_db.Storage.{ok, err, hook_failed, ks_node, ks_version, Keyspace}
use mini_graph_db.Prelude.Bytes.{Bytes, bytes_beq, bytes_eq}
use mini_graph_db.Prelude.Int.{pos}
use mini_graph_db.Memory.Engine.{Engine, open_engine}
use mini_graph_db.Memory.Engine.Step.{open_engine-IsValid}
use mini_graph_db.Memory.Snapshot.{value_in}
use mini_graph_db.Prelude.Assoc.{lookup}
use mini_graph_db.Txn.MemoryBackend.{IsOpen, Session, IsReady, memory_backend, session_begin}
use mini_graph_db.Txn.Versions.{
  WriteOp, Published, publish, read_head, head_of, validate, validate_all, validate_ops,
  validate_op,
}
use mini_graph_db.Txn.Manager.{Manager, commit, touch}
use mini_graph_db.Txn.Manager.Commit.{SameState, commit-SameState}
use mini_graph_db.Txn.Versions.Conflicts.{IsCurrent, validate-IsCurrent}
use mini_graph_db.Txn.Versions.History.{fresh}
use mini_graph_db.Txn.Versions.Clean.{IsKept}
use mini_graph_db.Storage.WriteSet.{has_writes, WriteSet, find, ops_of, IsDistinct}
use mini_graph_db.Txn.Versions.PublishAll.{IsUser, Shows, publish-Shows}
use mini_graph_db.Txn.Versions.PublishOp.{IsPublished, publish_op-IsPublished}
use mini_graph_db.Txn.Version.{encode_head}
use mini_graph_db.Txn.Version.Codec.{decode_head-encode_head}

abbrev key : Bytes
key = 1 ∷ []

abbrev head_3 : Bytes
head_3 = encode_head 3 0 (7 ∷ [])

open_engine-IsReady : IsReady open_engine
unfolding open_engine
open_engine-IsReady = record {
  sound = open_engine-IsValid;
  up = refl;
  no_before = refl;
  no_after = refl;
}

-- A transaction of the memory engine that sees one head, written at 3.
abbrev started : Session
started = (session_begin open_engine open_engine-IsReady).0

abbrev headed : Session
headed =
    (memory_backend.put_view started ks_node key head_3
      (session_begin open_engine open_engine-IsReady).2).0

view-headed :
    (js : Keyspace) (j : Bytes)
    → memory_backend.view headed js j ≡ (if ks_node == js && key == j then some head_3 else none)
unfolding open_engine value_in lookup
view-headed js j =
    (memory_backend.put_view started ks_node key head_3
        (session_begin open_engine open_engine-IsReady).2).3
      js j
    ∙ ground (arith, (session_begin open_engine open_engine-IsReady).3 js j)

headed-IsKept : IsKept memory_backend headed ks_node key 3
headed-IsKept = record {
  opened =
      (memory_backend.put_view started ks_node key head_3
        (session_begin open_engine open_engine-IsReady).2).2;
  head_fits = λ raw e.
      let same : head_3 ≡ raw = ground (arith, e, view-headed ks_node key) in
      rw (← same, decode_head-encode_head 3 0 (7 ∷ []) (omega arith) (omega arith))
        (record { created = omega arith; ended = omega arith; in_order = inl refl });
  chain = λ raw j w e e' mine. absurd (ground (arith, e', view-headed ks_version j));
  bare = λ j w e e'. absurd (ground (arith, e', view-headed ks_version j));
}

node_apart : ks_node ≢ ks_version
node_apart e = omega (arith, e)

abbrev write : WriteOp
write = record { val = 9 ∷ []; del = false; unique = false; shadowed = false }

publish_op-IsPublished_example : IsPublished memory_backend ks_node key headed 5 write (pos 0)
publish_op-IsPublished_example =
    publish_op-IsPublished memory_backend ks_node key node_apart headed 3 5 write (pos 0)
      headed-IsKept (omega arith) (omega arith)

abbrev writes : WriteSet WriteOp
writes = (ks_node, (key, write) ∷ []) ∷ []

writes-IsDistinct : IsDistinct writes
unfolding lookup
writes-IsDistinct = ((refl, tt), ((refl, tt), tt))

key-IsUser : IsUser ks_node key
key-IsUser = record { own = node_apart; short = omega arith }

publish-Shows_example :
    (p : Published memory_backend.Tx) × (publish memory_backend headed 5 writes (pos 0) ≡ ok p)
    × IsOpen p.1
    × ((js : Keyspace) (j : Bytes)
        → IsUser js j
        → Shows memory_backend 5 headed p.1 js j (find js j writes))
publish-Shows_example =
    publish-Shows memory_backend 5 3 (omega arith) (omega arith) writes headed (pos 0)
      headed-IsKept.opened writes-IsDistinct (((key-IsUser, headed-IsKept), tt), tt)

read_head-headed : read_head memory_backend headed ks_node key ≡ ok (some (fresh 3 (7 ∷ [])))
unfolding read_head head_of bytes_beq
read_head-headed = ground (
  arith,
  memory_backend.get_view headed ks_node key headed-IsKept.opened,
  view-headed ks_node key,
  decode_head-encode_head 3 0 (7 ∷ []) (omega arith) (omega arith),
)

validate-headed : validate memory_backend headed 3 writes ≡ ok tt
unfolding validate validate_all validate_ops validate_op
validate-headed = ground (arith, read_head-headed)

find-writes : find ks_node key writes ≡ some write
unfolding find ops_of lookup bytes_beq
find-writes = refl

validate-IsCurrent_example : IsCurrent 3 (fresh 3 (7 ∷ []))
validate-IsCurrent_example =
    validate-IsCurrent memory_backend headed 3 writes ks_node key write (fresh 3 (7 ∷ []))
      validate-headed find-writes read_head-headed

-- A manager whose transaction 0 has a write, and whose hook refuses each commit.
abbrev refusing : Manager Engine
refusing = record {
  eng = open_engine;
  opt = record { max_open_txns = none; max_write_set = none; idle_timeout = none };
  hooks = record { before_commit = some (err (hook_failed 1)); after_commit = none };
  next_txn_id = 2;
  commit_ts = 4;
  live_keys = pos 0;
  tx = λ i. record {
    id = 1;
    snapshot = 4;
    commit_ts = 0;
    ro = false;
    done = false;
    writes = writes;
    marks = [];
    last = 0;
    started = 0;
  };
  next = 1;
  live = 0 ∷ [];
  commits = 0;
  rollbacks = 0;
  closed = false;
}

commit-refusing : (commit memory_backend refusing 0 7).0 ≡ err (hook_failed 1)
unfolding commit touch has_writes
commit-refusing = refl

commit-SameState_example : SameState refusing (commit memory_backend refusing 0 7).1
commit-SameState_example =
    commit-SameState memory_backend refusing 0 7 (hook_failed 1) refl commit-refusing
