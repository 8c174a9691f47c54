-- ===== src/Txn/MemoryBackend.antt =====
-- The memory engine as the manager's engine: internal/storage/memory/engine.go keeps the laws of
-- Txn/Backend.antt.
use mini_graph_db.Prelude.{
  ℕ, true, false, Option, none, some, List, [], ◌∷◌, ◌≡◌, refl, arith, if◌then◌else◌, length, ◌==◌,
  nat_eq, ◌&&◌, Ordering-cases, inl, inr, Bool-cases, ◌∙◌,
}
use mini_graph_db.Prelude.Bytes.{
  Bytes, bytes_eq, bytes_beq_iff, compare_bytes, compare_bytes-eq, compare_bytes_trans,
  compare_bytes-flip,
}
use mini_graph_db.Prelude.Assoc.{lookup}
use mini_graph_db.Storage.{Keyspace, Result, ok, err, ◌>>=◌}
use mini_graph_db.Storage.WriteSet.{find, find-store, find-empty}
use mini_graph_db.Memory.Space.{at_least}
use mini_graph_db.Memory.Space.Keys.{IsBelow}
use mini_graph_db.Memory.Snapshot.{Item, WriteOp, value_in, materialize}
use mini_graph_db.Memory.Snapshot.Items.{IsOrdered}
use mini_graph_db.Memory.Snapshot.Publish.{after}
use mini_graph_db.Memory.Snapshot.Materialize.{materialize-IsOrdered, lookup-materialize}
use mini_graph_db.Memory.Engine.{Engine, Reply, begin, get, put, delete, commit, found, buffer}
use mini_graph_db.Memory.Engine.Step.{IsValid, buffer-IsValid, begin-IsValid, commit-IsValid}
use mini_graph_db.Memory.Engine.Commit.{commit-publishes}
use mini_graph_db.Memory.Cursor.{Cursor, cursor, seek, loaded}
use mini_graph_db.Memory.Cursor.Seeks.{walk, from, walk-seek}
use mini_graph_db.Txn.Versions.Scans.{lookup-below}
use mini_graph_db.Txn.Backend.{Backend}

-- An engine and the handle of one of its transactions.
pub record Session : Type 0 where
  pub eng : Engine
  pub id : ℕ

abbrev pub with_reply : ℕ → Reply (Unit {0}) → Result Session
with_reply i (ok _, e) = ok (record { eng = e; id = i })
with_reply i (err x, e) = err x

abbrev pub begun : Reply ℕ → Result Session
begun (ok i, e) = ok (record { eng = e; id = i })
begun (err x, e) = err x

abbrev pub ended : Reply (Unit {0}) → Result Engine
ended (ok _, e) = ok e
ended (err x, e) = err x

abbrev pub session_view : Session → Keyspace → Bytes → Option Bytes
session_view s ks k = after (find ks k (s.eng.tx s.id).writes) (value_in (s.eng.tx s.id).snap ks k)

-- An engine that is not closed and has no hooks.
pub record IsReady (e : Engine) : Type 0 where
  pub sound : IsValid e
  pub up : e.closed ≡ false
  pub no_before : e.hooks.before_commit ≡ none
  pub no_after : e.hooks.after_commit ≡ none

pub record IsOpen (s : Session) : Type 0 where
  pub ready : IsReady s.eng
  pub unfinished : (s.eng.tx s.id).done ≡ false
  pub writable : (s.eng.tx s.id).ro ≡ false
  -- No commit since it began: the manager lets one transaction write at a time.
  pub newest : (s.eng.tx s.id).snap ≡ s.eng.current

abbrev pub session_scan : Session → Keyspace → Bytes → Result (List Item)
session_scan s ks target = do
  c ← cursor s.eng s.id ks
  ok (walk s.eng (seek s.eng c (some target)).1 (length (loaded s.eng c).items))

IsBelow-at_least :
    (target j k : Bytes) → at_least target j ≡ false → at_least target k ≡ true → IsBelow j k
IsBelow-at_least target j k h n = elim (Ordering-cases (compare_bytes k target)) [
  | inl lt ↦ absurd (ground (arith, lt, n))
  | inr (inl eq) ↦ rw (compare_bytes-eq k target eq) (ground (arith, h))
  | inr (inr gt) ↦
      compare_bytes_trans j target k (ground (arith, h))
        (ground (arith, gt, compare_bytes-flip k target))
]

lookup-from :
    (target : Bytes) (l : List Item) (j : Bytes)
    → IsOrdered l
    → lookup j (from target l) ≡ (if at_least target j then lookup j l else none)
unfolding lookup
lookup-from target [] j o = ground arith
lookup-from target ((k, v) ∷ l) j o = elim (Bool-cases (at_least target k)) [
  | inl here ↦ elim (Bool-cases (at_least target j)) [
    | inl above ↦ rw (here, above) refl
    | inr under ↦
        rw (here, under) (lookup-below j k v l o.0 (IsBelow-at_least target j k under here))
  ]
  | inr later ↦ ground (arith, later, lookup-from target l j o.1, bytes_beq_iff k j)
]

from-IsOrdered : (target : Bytes) (l : List Item) → IsOrdered l → IsOrdered (from target l)
from-IsOrdered target [] o = tt
from-IsOrdered target ((k, v) ∷ l) o = ground (arith, o.0, o.1, from-IsOrdered target l o.1)

pub session_get :
    (s : Session) (ks : Keyspace) (k : Bytes)
    → IsOpen s
    → get s.eng s.id ks k ≡ found (session_view s ks k)
unfolding get
session_get s ks k o = ground (arith, o.unfinished)

-- A write, as `Put` and `Delete` make it.
session_buffer :
    (s : Session) (ks : Keyspace) (k : Bytes) (op : WriteOp)
    → IsOpen s
    → (u : Session) × (with_reply s.id (buffer s.eng s.id ks k op) ≡ ok u)
      × IsOpen u
      × ((js : Keyspace) (j : Bytes)
          → session_view u js j
            ≡ (if ks == js && k == j then after (some op) none else session_view s js j))
unfolding buffer
session_buffer s ks k op o = (
  record { eng = (buffer s.eng s.id ks k op).1; id = s.id },
  ground (arith, o.unfinished, o.writable),
  record {
    ready = record {
      sound = buffer-IsValid s.eng s.id ks k op o.ready.sound;
      up = ground (arith, o.unfinished, o.writable, o.ready.up);
      no_before = ground (arith, o.unfinished, o.writable, o.ready.no_before);
      no_after = ground (arith, o.unfinished, o.writable, o.ready.no_after);
    };
    unfinished = ground (arith, o.unfinished, o.writable);
    writable = ground (arith, o.unfinished, o.writable);
    newest = ground (arith, o.unfinished, o.writable, o.newest);
  },
  λ js j. ground (arith, o.unfinished, o.writable, find-store ks js k j op (s.eng.tx s.id).writes),
)

pub session_put :
    (s : Session) (ks : Keyspace) (k v : Bytes)
    → IsOpen s
    → (u : Session) × (with_reply s.id (put s.eng s.id ks k v) ≡ ok u)
      × IsOpen u
      × ((js : Keyspace) (j : Bytes)
          → session_view u js j ≡ (if ks == js && k == j then some v else session_view s js j))
unfolding put
session_put s ks k v o = session_buffer s ks k (record { val = v; del = false }) o

pub session_delete :
    (s : Session) (ks : Keyspace) (k : Bytes)
    → IsOpen s
    → (u : Session) × (with_reply s.id (delete s.eng s.id ks k) ≡ ok u)
      × IsOpen u
      × ((js : Keyspace) (j : Bytes)
          → session_view u js j ≡ (if ks == js && k == j then none else session_view s js j))
unfolding delete
session_delete s ks k o = session_buffer s ks k (record { val = []; del = true }) o

pub session_scan_lem :
    (s : Session) (ks : Keyspace) (target : Bytes)
    → IsOpen s
    → (l : List Item) × (session_scan s ks target ≡ ok l)
      × IsOrdered l
      × ((j : Bytes) → lookup j l ≡ (if at_least target j then session_view s ks j else none))
unfolding cursor
session_scan_lem s ks target o =
    let t = s.eng.tx s.id in
    let c : Cursor = record { tx = s.id; ks = ks; items = []; idx = none; closed = false } in
    let items = materialize t.snap t.writes ks in
    let sound = (o.ready.sound.txs s.id).snap_sound in
    let distinct = (o.ready.sound.txs s.id).writes_distinct in
    let ordered = materialize-IsOrdered t.snap t.writes ks sound distinct in
    (
      from target items,
      ground (arith, o.unfinished, walk-seek s.eng c target (ground (arith, o.unfinished))),
      from-IsOrdered target items ordered,
      λ j. ground (
        arith,
        lookup-from target items j ordered,
        lookup-materialize t.snap t.writes ks sound distinct j,
      ),
    )

pub session_begin :
    (e : Engine)
    → IsReady e
    → (t : Session) × (begun (begin e false) ≡ ok t)
      × IsOpen t
      × ((js : Keyspace) (j : Bytes) → session_view t js j ≡ value_in e.current js j)
unfolding begin
session_begin e r = (
  record { eng = (begin e false).1; id = e.next },
  ground (arith, r.up),
  record {
    ready = record {
      sound = begin-IsValid e false r.sound;
      up = ground (arith, r.up);
      no_before = ground (arith, r.up, r.no_before);
      no_after = ground (arith, r.up, r.no_after);
    };
    unfinished = ground (arith, r.up);
    writable = ground (arith, r.up);
    newest = ground (arith, r.up);
  },
  λ js j. ground (arith, r.up, find-empty {V = WriteOp} js j),
)

pub session_commit :
    (t : Session)
    → IsOpen t
    → (e : Engine) × (ended (commit t.eng t.id) ≡ ok e)
      × IsReady e
      × ((js : Keyspace) (j : Bytes) → value_in e.current js j ≡ session_view t js j)
unfolding commit
session_commit t o =
    let done : (commit t.eng t.id).0 ≡ ok tt =
      ground (arith, o.ready.up, o.unfinished, o.writable, o.ready.no_before, o.ready.no_after) in
    (
      (commit t.eng t.id).1,
      ground (arith, done),
      record {
        sound = commit-IsValid t.eng t.id o.ready.sound;
        up = ground (arith, o.ready.up, o.unfinished, o.writable, o.ready.no_before);
        no_before = ground (arith, o.ready.up, o.unfinished, o.writable, o.ready.no_before);
        no_after =
            ground
              (arith, o.ready.up, o.unfinished, o.writable, o.ready.no_before, o.ready.no_after);
      },
      λ js j. commit-publishes t.eng t.id js j o.ready.sound o.writable done ∙ rw o.newest refl,
    )

-- The memory engine is an engine as the manager expects it.
abbrev pub memory_backend : Backend
memory_backend = record {
  Tx = Session;
  get = λ s ks k. get s.eng s.id ks k;
  put = λ s ks k v. with_reply s.id (put s.eng s.id ks k v);
  delete = λ s ks k. with_reply s.id (delete s.eng s.id ks k);
  scan = session_scan;
  view = session_view;
  IsOpen = IsOpen;
  get_view = session_get;
  put_view = session_put;
  delete_view = session_delete;
  scan_view = session_scan_lem;
  Eng = Engine;
  begin = λ e. begun (begin e false);
  commit = λ s. ended (commit s.eng s.id);
  holds = λ e ks k. value_in e.current ks k;
  IsReady = IsReady;
  begin_view = session_begin;
  commit_view = session_commit;
}
