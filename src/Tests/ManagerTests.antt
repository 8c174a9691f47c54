-- ===== src/Tests/ManagerTests.antt =====
-- The manager over the memory engine: a commit beside an open reader.
use mini_graph_db.Prelude.{
  [], ◌∷◌, ◌≡◌, arith, false, none, refl, ◌∙◌, ◌==◌, nat_eq, Bool-cases, inl, inr, List,
  if◌then◌else◌,
}
use mini_graph_db.Storage.{ok, ks_node, ks_version, Keyspace}
use mini_graph_db.Prelude.Bytes.{Bytes, bytes_eq}
use mini_graph_db.Prelude.Int.{pos}
use mini_graph_db.Prelude.Assoc.{lookup}
use mini_graph_db.Memory.Engine.{Engine, open_engine}
use mini_graph_db.Memory.Engine.Step.{open_engine-IsValid}
use mini_graph_db.Memory.Snapshot.{value_in}
use mini_graph_db.Txn.MemoryBackend.{IsReady, Session, memory_backend}
use mini_graph_db.Txn.Versions.{
  WriteOp, read_head, head_of, validate, validate_all, validate_ops, validate_op,
}
use mini_graph_db.Txn.Versions.Clean.{IsKept}
use mini_graph_db.Txn.Versions.PublishAll.{IsUser}
use mini_graph_db.Storage.WriteSet.{has_writes, WriteSet, IsDistinct}
use mini_graph_db.Txn.Manager.{Manager, Tx, commit, touch, get}
use mini_graph_db.Txn.Manager.Isolation.{begun, write_versions-Committed}
use mini_graph_db.Txn.Manager.Snapshots.{IsSound, Extends}
use mini_graph_db.Txn.Manager.Run.{Call, begins, puts, commits, run, run-Extends, get-others}
use mini_graph_db.Txn.Manager.Refines.{SameStore, store_of, write_at, commit-Refines}

abbrev node_key : Bytes
node_key = 1 ∷ []

empty_engine-IsReady : IsReady open_engine
unfolding open_engine
empty_engine-IsReady = record {
  sound = open_engine-IsValid;
  up = refl;
  no_before = refl;
  no_after = refl;
}

abbrev empty : Session
empty = begun memory_backend open_engine empty_engine-IsReady

view-empty : (js : Keyspace) (j : Bytes) → memory_backend.view empty js j ≡ none
unfolding value_in open_engine lookup
view-empty js j = (memory_backend.begin_view open_engine empty_engine-IsReady).3 js j ∙ ground arith

empty-IsKept : (js : Keyspace) (j : Bytes) → IsUser js j → IsKept memory_backend empty js j 0
empty-IsKept js j user = record {
  opened = (memory_backend.begin_view open_engine empty_engine-IsReady).2;
  head_fits = λ raw e. absurd (ground (arith, e, view-empty js j));
  chain = λ raw i w e e' mine. absurd (ground (arith, e, view-empty js j));
  bare = λ i w e e'. absurd (ground (arith, e', view-empty ks_version i));
}

abbrev node_write : WriteOp
node_write = record { val = 9 ∷ []; del = false; unique = false; shadowed = false }

abbrev node_writes : WriteSet WriteOp
node_writes = (ks_node, (node_key, node_write) ∷ []) ∷ []

abbrev writing : WriteSet WriteOp → Tx
writing w = record {
  id = 1;
  snapshot = 0;
  commit_ts = 0;
  ro = false;
  done = false;
  writes = w;
  marks = [];
  last = 0;
  started = 0;
}

-- Transactions 0, which has written nothing, and 1, which has a write.
abbrev two : Manager Engine
two = record {
  eng = open_engine;
  opt = record { max_open_txns = none; max_write_set = none; idle_timeout = none };
  hooks = record { before_commit = none; after_commit = none };
  next_txn_id = 3;
  commit_ts = 0;
  live_keys = pos 0;
  tx = λ i. if i == 1 then writing node_writes else writing [];
  next = 2;
  live = 1 ∷ 0 ∷ [];
  commits = 0;
  rollbacks = 0;
  closed = false;
}

node_key-IsUser : IsUser ks_node node_key
node_key-IsUser = record { own = λ e. omega (arith, e); short = omega arith }

node_writes-IsDistinct : IsDistinct node_writes
unfolding lookup
node_writes-IsDistinct = ((refl, tt), ((refl, tt), tt))

two-IsSound : IsSound memory_backend two
two-IsSound = record {
  stored = (empty_engine-IsReady, empty-IsKept);
  txs = λ i. elim (Bool-cases (i == 1)) [
    | inl one ↦ rw one (record {
      began = omega arith;
      writes_fit = (node_writes-IsDistinct, ((node_key-IsUser, tt), tt));
      marks_fit = tt;
    })
    | inr other ↦
        rw other (record { began = omega arith; writes_fit = ((tt, tt), tt); marks_fit = tt })
  ];
}

read_head-empty : read_head memory_backend empty ks_node node_key ≡ ok none
unfolding read_head head_of
read_head-empty = ground (
  arith,
  memory_backend.get_view empty ks_node node_key
      (memory_backend.begin_view open_engine empty_engine-IsReady).2,
  view-empty ks_node node_key,
)

validate-empty : validate memory_backend empty 0 node_writes ≡ ok tt
unfolding validate validate_all validate_ops validate_op
validate-empty = ground (arith, read_head-empty)

commit-two : (commit memory_backend two 1 7).0 ≡ ok tt
unfolding commit touch has_writes
commit-two =
    let written =
      write_versions-Committed memory_backend open_engine empty_engine-IsReady 0 1 0 3 node_writes
        (omega arith) (omega arith) empty-IsKept node_writes-IsDistinct ((node_key-IsUser, tt), tt)
        validate-empty in
    rw written.1 refl

commit-Refines_example :
    SameStore memory_backend
      (store_of memory_backend (commit memory_backend two 1 7).1)
      (write_at memory_backend 1 node_writes (store_of memory_backend two))
commit-Refines_example =
    commit-Refines memory_backend two 1 7 two-IsSound (omega arith) refl commit-two

abbrev others : List (Call memory_backend)
others = puts 1 ks_node (2 ∷ []) (8 ∷ []) 5 ∷ commits 1 7 ∷ begins false 8 ∷ []

run-Extends_example : Extends memory_backend 3 two (run memory_backend two others)
run-Extends_example =
    run-Extends memory_backend others two two-IsSound (omega arith, (tt, (tt, tt))) (omega arith)

get-others_example :
    (get memory_backend (run memory_backend two others) 0 ks_node node_key 9).0
    ≡ (get memory_backend two 0 ks_node node_key 9).0
get-others_example =
    get-others memory_backend others two 0 ks_node node_key 9 two-IsSound
      (omega arith, (tt, (tt, tt))) ((λ e. omega (arith, e)), ((λ e. omega (arith, e)), (tt, tt)))
      (omega arith) (omega arith) (omega arith)
