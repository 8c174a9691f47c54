-- ===== src/Tests/MemoryTests.antt =====
-- The memory engine: one committed key, a reader, and two writers.
use mini_graph_db.Prelude.{
  true, false, Option, none, some, List, [], ◌∷◌, ◌≡◌, refl, arith, length, suc,
}
use mini_graph_db.Prelude.Bytes.{Bytes, bytes_beq, bytes_eq, compare_bytes}
use mini_graph_db.Prelude.Assoc.{lookup, insert, remove}
use mini_graph_db.Storage.{Keyspace, ks_node, hook_failed, ok, err}
use mini_graph_db.Storage.WriteSet.{find, store, ops_of, has_writes}
use mini_graph_db.Memory.Space.{search_by, stands_at, insert_at, delete_at}
use mini_graph_db.Memory.Space
use mini_graph_db.Memory.Snapshot.{
  ensure, value_in, apply_ops, apply_writes, base_items, extra_items, insert_item, sort_items,
  merge_items, materialize,
}
use mini_graph_db.Memory.Snapshot.Publish.{after}
use mini_graph_db.Memory.Snapshot.Items.{IsOrdered}
use mini_graph_db.Memory.Snapshot.Materialize.{lookup-materialize, materialize-IsOrdered}
use mini_graph_db.Memory.Engine.{
  Engine, open_engine, begin, put, delete, commit, rollback, mark, rollback_to, get, set_hooks,
}
use mini_graph_db.Memory.Engine.Step.{
  Call, begins, puts, deletes, commits, step, run, IsValid, run-open_engine-IsValid,
}
use mini_graph_db.Memory.Engine.Reads.{get-put, get-run}
use mini_graph_db.Memory.Engine.Commit.{commit-publishes, commit-err}
use mini_graph_db.Memory.Engine.Savepoints.{get-rollback_to, write_all}
use mini_graph_db.Memory.Cursor
use mini_graph_db.Memory.Cursor.{Cursor, usable, seek, loaded}
use mini_graph_db.Memory.Cursor.Seeks.{walk, walk-seek, from}

abbrev key_a : Bytes
key_a = 1 ∷ []

abbrev key_b : Bytes
key_b = 2 ∷ []

abbrev val_x : Bytes
val_x = 7 ∷ []

-- Transaction 0 commits `a`; 1 reads; 2 writes `b` and deletes `a`, and is still open.
abbrev setup : List Call
setup =
    begins false
    ∷ puts 0 ks_node key_a val_x
    ∷ commits 0
    ∷ begins true
    ∷ begins false
    ∷ puts 2 ks_node key_b val_x
    ∷ deletes 2 ks_node key_a
    ∷ []

-- A proof that runs the engine unfolds this.
engine_runs : Unit {0}
unfolding run step begin put delete commit rollback mark rollback_to get set_hooks open_engine
    has_writes store ops_of find lookup insert remove value_in apply_writes apply_ops ensure
    Space.put Space.del search_by stands_at insert_at delete_at bytes_beq compare_bytes base_items
    extra_items insert_item sort_items merge_items materialize walk seek Cursor.next Cursor.item
engine_runs = tt

abbrev e2 : Engine
e2 = run open_engine setup

e2-IsValid : IsValid e2
e2-IsValid = run-open_engine-IsValid setup

run-open_engine-IsValid_example : IsValid (run open_engine setup)
run-open_engine-IsValid_example = run-open_engine-IsValid setup

get-run_example : get (run e2 (commits 2 ∷ [])) 1 ks_node key_a ≡ get e2 1 ks_node key_a
unfolding engine_runs
get-run_example = get-run (commits 2 ∷ []) e2 1 ks_node key_a (omega arith) (refl, tt)

commit-publishes_example :
    value_in (commit e2 2).1.current ks_node key_b
    ≡ after (find ks_node key_b (e2.tx 2).writes) (value_in e2.current ks_node key_b)
unfolding engine_runs
commit-publishes_example = commit-publishes e2 2 ks_node key_b e2-IsValid refl refl

-- The committed deletion, run.
deleted : value_in (commit e2 2).1.current ks_node key_a ≡ none
unfolding engine_runs
deleted = refl

abbrev refusing : Engine
refusing = set_hooks e2 (record { before_commit = some (err (hook_failed 4)); after_commit = none })

commit-err_example : (commit refusing 2).1 ≡ refusing
unfolding engine_runs
commit-err_example = commit-err refusing 2 (hook_failed 4) refl refl

get-put_example : get (put e2 2 ks_node key_a key_b).1 2 ks_node key_a ≡ ok key_b
unfolding engine_runs
get-put_example = get-put e2 2 ks_node ks_node key_a key_a key_b refl

abbrev later_writes : List (Keyspace × Bytes × Option Bytes)
later_writes = (ks_node, key_a, some key_b) ∷ (ks_node, key_b, none) ∷ []

get-rollback_to_example :
    let m = suc (length (e2.tx 2).marks) in
    let back = rollback_to (write_all (mark e2 2).1 2 later_writes) 2 m in
    ((mark e2 2).0 ≡ ok m)
    × (back.0 ≡ ok tt)
    × (get back.1 2 ks_node key_b ≡ get e2 2 ks_node key_b)
    × ((back.1.tx 2).marks ≡ (e2.tx 2).marks)
unfolding engine_runs
get-rollback_to_example = get-rollback_to e2 2 later_writes ks_node key_b refl

lookup-materialize_example :
    lookup key_b (materialize (e2.tx 2).snap (e2.tx 2).writes ks_node)
    ≡ after (find ks_node key_b (e2.tx 2).writes) (value_in (e2.tx 2).snap ks_node key_b)
lookup-materialize_example =
    lookup-materialize (e2.tx 2).snap (e2.tx 2).writes ks_node (e2-IsValid.txs 2).snap_sound
      (e2-IsValid.txs 2).writes_distinct key_b

materialize-IsOrdered_example : IsOrdered (materialize (e2.tx 2).snap (e2.tx 2).writes ks_node)
materialize-IsOrdered_example =
    materialize-IsOrdered (e2.tx 2).snap (e2.tx 2).writes ks_node (e2-IsValid.txs 2).snap_sound
      (e2-IsValid.txs 2).writes_distinct

abbrev cursor_2 : Cursor
cursor_2 = record { tx = 2; ks = ks_node; items = []; idx = none; closed = false }

walk-seek_example :
    walk e2 (seek e2 cursor_2 (some key_a)).1 (length (loaded e2 cursor_2).items)
    ≡ from key_a (loaded e2 cursor_2).items
unfolding engine_runs
walk-seek_example = walk-seek e2 cursor_2 key_a refl

-- What that walk meets: `a` is deleted and `b` is written.
walked : walk e2 (seek e2 cursor_2 (some key_a)).1 4 ≡ (key_b, val_x) ∷ []
unfolding engine_runs
walked = refl
