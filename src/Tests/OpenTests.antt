-- ===== src/Tests/OpenTests.antt =====
-- Opening and reopening a database over the memory engine.
use mini_graph_db.Prelude.{◌≡◌, List, [], ◌∷◌, none, refl, arith, length, false}
use mini_graph_db.Prelude.Bytes.{Bytes}
use mini_graph_db.Prelude.Assoc.{lookup}
use mini_graph_db.Storage.{Keyspace, ok, ks_node}
use mini_graph_db.Memory.Engine.{Engine, open_engine}
use mini_graph_db.Memory.Snapshot.{value_in}
use mini_graph_db.Memory.Engine.Step.{open_engine-IsValid}
use mini_graph_db.Txn.MemoryBackend.{memory_backend, IsReady}
use mini_graph_db.Txn.Manager.{Manager, Options}
use mini_graph_db.Txn.Manager.Isolation.{Saved}
use mini_graph_db.Txn.Manager.Snapshots.{IsSound, Extends}
use mini_graph_db.Txn.Manager.Run.{Call, begins, puts, commits, run}
use mini_graph_db.Txn.Open.{open_manager}
use mini_graph_db.Txn.Open.Reopen.{Opened, open_manager-run}
use mini_graph_db.Txn.Open.Fresh.{open_manager-nothing}

open_engine-IsReady : IsReady open_engine
unfolding open_engine
open_engine-IsReady = record {
  sound = open_engine-IsValid;
  up = refl;
  no_before = refl;
  no_after = refl;
}

holds-open_engine : (js : Keyspace) (j : Bytes) → memory_backend.holds open_engine js j ≡ none
unfolding value_in open_engine lookup
holds-open_engine js j = ground arith

abbrev no_caps : Options
no_caps = record { max_open_txns = none; max_write_set = none; idle_timeout = none }

open_manager-nothing_example :
    (m : Manager Engine) × (open_manager memory_backend open_engine no_caps ≡ ok m)
    × IsSound memory_backend m
    × Saved memory_backend m.eng m.commit_ts
    × (m.commit_ts ≡ 0)
    × (m.live ≡ [])
open_manager-nothing_example =
    open_manager-nothing memory_backend open_engine open_engine-IsReady holds-open_engine no_caps

abbrev fresh : Manager Engine
fresh =
    (open_manager-nothing memory_backend open_engine open_engine-IsReady holds-open_engine
      no_caps).0

abbrev writes_once : List (Call memory_backend)
writes_once =
    begins false 5
    ∷ puts 0 ks_node (1 ∷ []) (9 ∷ []) 6
    ∷ commits 0 7
    ∷ begins false 8
    ∷ puts 1 ks_node (1 ∷ []) (8 ∷ []) 9
    ∷ []

open_manager-run_example :
    (n : Manager Engine) × (open_manager memory_backend
        (run memory_backend fresh writes_once).eng
        no_caps
      ≡ ok n)
    × Opened memory_backend
        (run memory_backend fresh writes_once).eng
        (run memory_backend fresh writes_once).commit_ts
        no_caps
        n
    × Extends memory_backend (length writes_once) fresh n
open_manager-run_example =
    let (m, opens, sound, saved, clock, live) =
      open_manager-nothing memory_backend open_engine open_engine-IsReady holds-open_engine
        no_caps in
    open_manager-run memory_backend writes_once fresh no_caps sound saved
      (tt, (omega arith, (tt, (tt, (omega arith, tt))))) (omega (arith, clock))
