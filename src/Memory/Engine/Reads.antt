-- ===== src/Memory/Engine/Reads.antt =====
-- What a transaction of the memory engine reads, and that the other transactions do not change it.
use mini_graph_db.Prelude.{
  ap, ℕ, ◌-◌, get_elem?, ◌<◌, Bool, true, false, Option, none, some, List, [], ◌∷◌, ◌≡◌, refl,
  arith, if◌then◌else◌, ◌==◌, nat_eq, ◌&&◌, All, ◌∙◌, ◌≤◌,
}
use mini_graph_db.Prelude.Bytes.{Bytes, bytes_eq}
use mini_graph_db.Storage.{Keyspace, Result, ok, err, err_not_found}
use mini_graph_db.Storage.WriteSet.{WriteSet, find-store, find-empty}
use mini_graph_db.Memory.Snapshot.{WriteOp, value_in}
use mini_graph_db.Memory.Engine.{
  Engine, MemTx, read, begin, get, put, delete, commit, rollback, mark, rollback_to, crash, close,
  set_hooks, found, publish, run_hook, restore,
}
use mini_graph_db.Memory.Engine.Step.{
  Call, begins, puts, deletes, commits, rolls_back, marks, rolls_back_to, crashes, closes, hooks,
  step, run,
}

-- The calls that may change the transaction `i`: its own, and those that abort every transaction.
abbrev pub touches : ℕ → Call → Bool
touches i (begins ro) = false
touches i (puts j ks k v) = j == i
touches i (deletes j ks k) = j == i
touches i (commits j) = j == i
touches i (rolls_back j) = j == i
touches i (marks j) = j == i
touches i (rolls_back_to j m) = j == i
touches i crashes = true
touches i closes = true
touches i (hooks h) = false

-- A transaction begun on an open engine reads the committed snapshot of that moment.
pub get-begin :
    (e : Engine) (ro : Bool) (ks : Keyspace) (k : Bytes)
    → e.closed ≡ false
    → get (begin e ro).1 e.next ks k ≡ found (value_in e.current ks k)
unfolding get begin
get-begin e ro ks k open_now = ground (arith, find-empty {V = WriteOp} ks k)

-- A transaction reads what it put, and its put changes no other key.
pub get-put :
    (e : Engine) (i : ℕ) (ks js : Keyspace) (k j v : Bytes)
    → (put e i ks k v).0 ≡ ok tt
    → get (put e i ks k v).1 i js j ≡ (if ks == js && k == j then ok v else get e i js j)
unfolding get put
get-put e i ks js k j v done =
    ground (arith, find-store ks js k j (record { val = v; del = false }) (e.tx i).writes)

-- A transaction does not find what it deleted, and its delete changes no other key.
pub get-delete :
    (e : Engine) (i : ℕ) (ks js : Keyspace) (k j : Bytes)
    → (delete e i ks k).0 ≡ ok tt
    → get (delete e i ks k).1 i js j
      ≡ (if ks == js && k == j then err err_not_found else get e i js j)
unfolding get delete
get-delete e i ks js k j done =
    ground (arith, find-store ks js k j (record { val = []; del = true }) (e.tx i).writes)

restore-tx :
    (e : Engine) (i j n : ℕ) (o : Option (WriteSet WriteOp))
    → (j == i) ≡ false
    → (restore e j n o).1.tx i ≡ e.tx i
restore-tx e i j n none other = refl
restore-tx e i j n (some w) other = rw other

publish-tx :
    (e : Engine) (i j : ℕ) (before : Result (Unit {0}))
    → (j == i) ≡ false
    → (publish e j before).1.tx i ≡ e.tx i
publish-tx e i j (ok _) other = rw other
publish-tx e i j (err x) other = refl

step-tx :
    (e : Engine) (i : ℕ) (c : Call) → i < e.next → touches i c ≡ false → (step e c).tx i ≡ e.tx i
unfolding step begin put delete commit rollback mark rollback_to set_hooks
step-tx e i (begins ro) made free = ground arith
step-tx e i (puts j ks k v) made free = ground arith
step-tx e i (deletes j ks k) made free = ground arith
step-tx e i (commits j) made free =
    ground (arith, publish-tx e i j (run_hook e.hooks.before_commit))
step-tx e i (rolls_back j) made free = ground arith
step-tx e i (marks j) made free = ground arith
step-tx e i (rolls_back_to j m) made free =
    ground (arith, restore-tx e i j (m - 1) (get_elem? (e.tx j).marks (m - 1)))
step-tx e i crashes made free = cc
step-tx e i closes made free = cc
step-tx e i (hooks h) made free = refl

next-restore :
    (e : Engine) (j n : ℕ) (o : Option (WriteSet WriteOp)) → (restore e j n o).1.next ≡ e.next
next-restore e j n none = refl
next-restore e j n (some w) = refl

next-publish :
    (e : Engine) (j : ℕ) (before : Result (Unit {0})) → (publish e j before).1.next ≡ e.next
next-publish e j (ok _) = refl
next-publish e j (err x) = refl

next-step : (e : Engine) (c : Call) → e.next ≤ (step e c).next
unfolding step begin put delete commit rollback mark rollback_to crash close set_hooks
next-step e (begins ro) = ground arith
next-step e (puts j ks k v) = ground arith
next-step e (deletes j ks k) = ground arith
next-step e (commits j) = ground (arith, next-publish e j (run_hook e.hooks.before_commit))
next-step e (rolls_back j) = ground arith
next-step e (marks j) = ground arith
next-step e (rolls_back_to j m) =
    ground (arith, next-restore e j (m - 1) (get_elem? (e.tx j).marks (m - 1)))
next-step e crashes = ground arith
next-step e closes = ground arith
next-step e (hooks h) = omega arith

run-tx :
    (cs : List Call) (e : Engine) (i : ℕ)
    → i < e.next
    → All (λ c. touches i c ≡ false) cs
    → (run e cs).tx i ≡ e.tx i
unfolding run
run-tx [] e i made free = refl
run-tx (c ∷ cs) e i made free =
    run-tx cs (step e c) i (omega (arith, next-step e c)) free.1 ∙ step-tx e i c made free.0

-- Snapshot isolation of the engine: whatever other transactions begin, write, commit and roll back,
-- a transaction's reads stay what they were, until a call is made on it or all are aborted.
pub get-run :
    (cs : List Call) (e : Engine) (i : ℕ) (ks : Keyspace) (k : Bytes)
    → i < e.next
    → All (λ c. touches i c ≡ false) cs
    → get (run e cs) i ks k ≡ get e i ks k
unfolding get
get-run cs e i ks k made free = ap (λ (t : MemTx). read t ks k) (run-tx cs e i made free)
