-- ===== src/Memory/Engine/Step.antt =====
-- The calls that change the memory engine, as one step function, and its invariant.
use mini_graph_db.Prelude.{
  ℕ, ◌-◌, Bool, true, false, Option, none, some, List, [], ◌∷◌, ◌≡◌, refl, if◌then◌else◌, All,
  get_elem?, ◌==◌, nat_eq, Bool-cases, inl, inr,
}
use mini_graph_db.Prelude.Alls.{All-append, All-take, All-get_elem?}
use mini_graph_db.Prelude.Bytes.{Bytes}
use mini_graph_db.Storage.{Keyspace, Result, ok, err}
use mini_graph_db.Storage.WriteSet.{WriteSet, IsDistinct, store-IsDistinct, has_writes}
use mini_graph_db.Memory.Snapshot.{WriteOp}
use mini_graph_db.Memory.Snapshot.Publish.{IsSound, apply_writes-IsSound}
use mini_graph_db.Memory.Engine.{
  Engine, MemTx, Hooks, open_engine, begin, put, delete, buffer, commit, rollback, mark,
  rollback_to, crash, close, set_hooks, update, run_hook, publish, Reply, set_tx, committed,
  restore, abort_live, member,
}

pub data Call : Type 0 where
  begins : Bool → Call
  puts : ℕ → Keyspace → Bytes → Bytes → Call
  deletes : ℕ → Keyspace → Bytes → Call
  commits : ℕ → Call
  rolls_back : ℕ → Call
  marks : ℕ → Call
  rolls_back_to : ℕ → ℕ → Call
  crashes closes : Call
  hooks : Hooks → Call

unfoldable pub step : Engine → Call → Engine
step e (begins ro) = (begin e ro).1
step e (puts i ks k v) = (put e i ks k v).1
step e (deletes i ks k) = (delete e i ks k).1
step e (commits i) = (commit e i).1
step e (rolls_back i) = (rollback e i).1
step e (marks i) = (mark e i).1
step e (rolls_back_to i m) = (rollback_to e i m).1
step e crashes = (crash e).1
step e closes = (close e).1
step e (hooks h) = set_hooks e h

unfoldable pub run : Engine → List Call → Engine
run e [] = e
run e (c ∷ cs) = run (step e c) cs

-- A transaction's snapshot is sound, and its write sets hold no key twice.
pub record TxIsValid (t : MemTx) : Type 0 where
  pub snap_sound : IsSound t.snap
  pub writes_distinct : IsDistinct t.writes
  pub marks_distinct : All IsDistinct t.marks

pub record IsValid (e : Engine) : Type 0 where
  pub current_sound : IsSound e.current
  pub txs : (i : ℕ) → TxIsValid (e.tx i)

pub open_engine-IsValid : IsValid open_engine
unfolding open_engine
open_engine-IsValid = record {
  current_sound = tt;
  txs = λ i. record { snap_sound = tt; writes_distinct = (tt, tt); marks_distinct = tt };
}

update-IsValid :
    (f : ℕ → MemTx) (i : ℕ) (t : MemTx)
    → ((j : ℕ) → TxIsValid (f j))
    → TxIsValid t
    → (j : ℕ) → TxIsValid (update f i t j)
update-IsValid f i t all h j = elim (Bool-cases (i == j)) [ inl e ↦ rw e h | inr e ↦ rw e (all j) ]

cleared-IsValid :
    (t : MemTx) → TxIsValid t → TxIsValid (record t { done = true; writes = []; marks = [] })
cleared-IsValid t v = record {
  snap_sound = v.snap_sound;
  writes_distinct = (tt, tt);
  marks_distinct = tt;
}

-- Any branch of a call.
if-IsValid :
    {A : Type 0} (b : Bool) (x y : Reply A)
    → IsValid x.1
    → IsValid y.1
    → IsValid (if b then x else y).1
if-IsValid true x y h k = h
if-IsValid false x y h k = k

-- Writing one transaction, whatever else of the engine but the snapshot changes.
set-IsValid : (e : Engine) (i : ℕ) (t : MemTx) → IsValid e → TxIsValid t → IsValid (set_tx e i t)
set-IsValid e i t v h = record {
  current_sound = v.current_sound;
  txs = update-IsValid e.tx i t v.txs h;
}

pub begin-IsValid : (e : Engine) (ro : Bool) → IsValid e → IsValid (begin e ro).1
unfolding begin
begin-IsValid e ro v = if-IsValid e.closed _ _ v (record {
  current_sound = v.current_sound;
  txs =
      update-IsValid e.tx e.next _ v.txs
        (record { snap_sound = v.current_sound; writes_distinct = (tt, tt); marks_distinct = tt });
})

pub buffer-IsValid :
    (e : Engine) (i : ℕ) (ks : Keyspace) (k : Bytes) (op : WriteOp)
    → IsValid e
    → IsValid (buffer e i ks k op).1
unfolding buffer
buffer-IsValid e i ks k op v = if-IsValid (e.tx i).done _ _ v (
    if-IsValid (e.tx i).ro _ _ v (
      set-IsValid e i _ v (record {
        snap_sound = (v.txs i).snap_sound;
        writes_distinct = store-IsDistinct ks k op _ (v.txs i).writes_distinct;
        marks_distinct = (v.txs i).marks_distinct;
      })))

committed-IsValid : (e : Engine) (i : ℕ) → IsValid e → IsValid (committed e i)
committed-IsValid e i v = record {
  current_sound = v.current_sound;
  txs = update-IsValid e.tx i _ v.txs (cleared-IsValid (e.tx i) (v.txs i));
}

publish-IsValid :
    (e : Engine) (i : ℕ) (before : Result (Unit {0})) → IsValid e → IsValid (publish e i before).1
publish-IsValid e i (err x) v = v
publish-IsValid e i (ok _) v = record {
  current_sound = apply_writes-IsSound (e.tx i).writes e.current v.current_sound;
  txs = update-IsValid e.tx i _ v.txs (cleared-IsValid (e.tx i) (v.txs i));
}

pub commit-IsValid : (e : Engine) (i : ℕ) → IsValid e → IsValid (commit e i).1
unfolding commit
commit-IsValid e i v = if-IsValid e.closed _ _ v (
    if-IsValid (e.tx i).done _ _ v (
      if-IsValid (e.tx i).ro _ _ (committed-IsValid e i v) (
        if-IsValid (has_writes (e.tx i).writes) _ _
          (publish-IsValid e i (run_hook e.hooks.before_commit) v) (committed-IsValid e i v))))

rollback-IsValid : (e : Engine) (i : ℕ) → IsValid e → IsValid (rollback e i).1
unfolding rollback
rollback-IsValid e i v = if-IsValid (e.tx i).done _ _ v (record {
  current_sound = v.current_sound;
  txs = update-IsValid e.tx i _ v.txs (cleared-IsValid (e.tx i) (v.txs i));
})

mark-IsValid : (e : Engine) (i : ℕ) → IsValid e → IsValid (mark e i).1
unfolding mark
mark-IsValid e i v = if-IsValid (e.tx i).done _ _ v (
    set-IsValid e i _ v (record {
      snap_sound = (v.txs i).snap_sound;
      writes_distinct = (v.txs i).writes_distinct;
      marks_distinct =
          All-append IsDistinct (e.tx i).marks _ (v.txs i).marks_distinct (v.txs i).writes_distinct;
    }))

rollback_to-IsValid : (e : Engine) (i m : ℕ) → IsValid e → IsValid (rollback_to e i m).1
unfolding rollback_to
rollback_to-IsValid e i m v =
    if-IsValid (e.tx i).done _ _ v
      (if-IsValid (m == 0) _ _ v (restored (get_elem? (e.tx i).marks (m - 1)) refl))
  where
    restored :
        (o : Option (WriteSet WriteOp))
        → get_elem? (e.tx i).marks (m - 1) ≡ o
        → IsValid (restore e i (m - 1) o).1
    restored none eq = v
    restored (some w) eq = set-IsValid e i _ v (record {
      snap_sound = (v.txs i).snap_sound;
      writes_distinct =
          All-get_elem? IsDistinct (m - 1) (e.tx i).marks w (v.txs i).marks_distinct eq;
      marks_distinct = All-take IsDistinct (m - 1) (e.tx i).marks (v.txs i).marks_distinct;
    })

abort_live-IsValid : (e : Engine) → IsValid e → (i : ℕ) → TxIsValid (abort_live e i)
abort_live-IsValid e v i = elim (Bool-cases (member i e.live)) [
  | inl h ↦ rw h (record {
    snap_sound = (v.txs i).snap_sound;
    writes_distinct = (tt, tt);
    marks_distinct = (v.txs i).marks_distinct;
  })
  | inr h ↦ rw h (v.txs i)
]

crash-IsValid : (e : Engine) → IsValid e → IsValid (crash e).1
unfolding crash
crash-IsValid e v =
    if-IsValid e.closed _ _ v
      (record { current_sound = v.current_sound; txs = abort_live-IsValid e v })

close-IsValid : (e : Engine) → IsValid e → IsValid (close e).1
unfolding close
close-IsValid e v =
    if-IsValid e.closed _ _ v
      (record { current_sound = v.current_sound; txs = abort_live-IsValid e v })

pub step-IsValid : (e : Engine) (c : Call) → IsValid e → IsValid (step e c)
unfolding step put delete set_hooks
step-IsValid e (begins ro) v = begin-IsValid e ro v
step-IsValid e (puts i ks k x) v = buffer-IsValid e i ks k _ v
step-IsValid e (deletes i ks k) v = buffer-IsValid e i ks k _ v
step-IsValid e (commits i) v = commit-IsValid e i v
step-IsValid e (rolls_back i) v = rollback-IsValid e i v
step-IsValid e (marks i) v = mark-IsValid e i v
step-IsValid e (rolls_back_to i m) v = rollback_to-IsValid e i m v
step-IsValid e crashes v = crash-IsValid e v
step-IsValid e closes v = close-IsValid e v
step-IsValid e (hooks h) v = record { current_sound = v.current_sound; txs = v.txs }

run-IsValid : (cs : List Call) (e : Engine) → IsValid e → IsValid (run e cs)
unfolding run
run-IsValid [] e v = v
run-IsValid (c ∷ cs) e v = run-IsValid cs (step e c) (step-IsValid e c v)

-- After any calls on a fresh engine, the committed snapshot and the snapshot of every transaction
-- are sorted finite maps, and no write set or savepoint holds a key twice.
pub run-open_engine-IsValid : (cs : List Call) → IsValid (run open_engine cs)
run-open_engine-IsValid cs = run-IsValid cs open_engine open_engine-IsValid
