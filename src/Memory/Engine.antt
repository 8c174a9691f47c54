-- ===== src/Memory/Engine.antt =====
-- `Engine` and `memTx` of memory/engine.go. Every method holds `mu`, so each is one step on the
-- engine. A `*memTx` is a handle: `tx` is the heap of the transactions made so far, and the handles
-- below `next` are in use. Counters are uint64.
use mini_graph_db.Prelude.{
  ℕ, zero, suc, ◌+◌, ◌-◌, ◌%◌, ◌^◌, Bool, true, false, Option, none, some, List, [], ◌∷◌, ◌++◌,
  if◌then◌else◌, length, take, get_elem?, ◌||◌, ltb, ◌==◌, nat_eq,
}
use mini_graph_db.Prelude.Bytes.{Bytes}
use mini_graph_db.Storage.{
  Keyspace, Error, err_not_found, err_read_only, err_closed, err_done, invalid_argument, Result, ok,
  err,
}
use mini_graph_db.Storage.WriteSet.{WriteSet, find, store, has_writes}
use mini_graph_db.Memory.Snapshot.{WriteOp, Snapshot, value_in, key_count, apply_writes}
pub mod Step
pub mod Reads
pub mod Commit
pub mod Savepoints

pub record MemTx : Type 0 where
  pub snap : Snapshot
  pub writes : WriteSet WriteOp
  pub marks : List (WriteSet WriteOp)
  pub ro : Bool
  pub done : Bool

-- A hook is nil or a function; what the function returns is its outcome.
pub record Hooks : Type 0 where
  pub before_commit : Option (Result (Unit {0}))
  pub after_commit : Option (Result (Unit {0}))

pub record Engine : Type 0 where
  pub current : Snapshot
  pub hooks : Hooks
  pub tx : ℕ → MemTx
  pub next : ℕ
  pub live : List ℕ
  pub closed : Bool
  pub commits : ℕ
  pub rollbacks : ℕ

pub record Stats : Type 0 where
  pub keys : ℕ
  pub commits : ℕ
  pub rollbacks : ℕ

abbrev pub Reply {ℓ} : Type ℓ → Type ℓ
Reply A = Result A × Engine

abbrev pub blank : MemTx
blank = record { snap = []; writes = []; marks = []; ro = true; done = true }

unfoldable pub open_engine : Engine
open_engine = record {
  current = [];
  hooks = record { before_commit = none; after_commit = none };
  tx = λ _. blank;
  next = 0;
  live = [];
  closed = false;
  commits = 0;
  rollbacks = 0;
}

abbrev pub bump : ℕ → ℕ → ℕ
bump n k = (n + k) % 2 ^ 64

-- Writes through the pointer `i`.
abbrev pub update : (ℕ → MemTx) → ℕ → MemTx → ℕ → MemTx
update f i t j = if i == j then t else f j

abbrev pub set_tx : Engine → ℕ → MemTx → Engine
set_tx e i t = record e { tx = update e.tx i t }

abbrev pub member : ℕ → List ℕ → Bool
member i [] = false
member i (j ∷ js) = j == i || member i js

-- `delete(e.open, tx)`.
abbrev pub without : ℕ → List ℕ → List ℕ
without i [] = []
without i (j ∷ js) = let rest = without i js in if j == i then rest else j ∷ rest

unfoldable pub begin : Engine → Bool → Reply ℕ
begin e read_only = if e.closed then (err err_closed, e) else (
  ok e.next,
  record e {
    tx =
        update e.tx e.next
          (record { snap = e.current; writes = []; marks = []; ro = read_only; done = false });
    next = suc e.next;
    live = e.next ∷ e.live;
  },
)

unfoldable pub sync : Engine → Result (Unit {0})
sync e = if e.closed then err err_closed else ok tt

unfoldable pub stats : Engine → Stats
stats e = record { keys = key_count e.current; commits = e.commits; rollbacks = e.rollbacks }

unfoldable pub set_hooks : Engine → Hooks → Engine
set_hooks e h = record e { hooks = h }

abbrev pub aborted : MemTx → MemTx
aborted t = record t { writes = []; done = true }

-- The loops over `e.open` of `Crash` and `Close`.
abbrev pub abort_live : Engine → ℕ → MemTx
abort_live e i = if member i e.live then aborted (e.tx i) else e.tx i

unfoldable pub crash : Engine → Reply (Unit {0})
crash e = if e.closed then (err err_closed, e) else (
  ok tt,
  record e { tx = abort_live e; live = []; rollbacks = bump e.rollbacks (length e.live) },
)

unfoldable pub close : Engine → Reply (Unit {0})
close e =
    if e.closed
    then (ok tt, e)
    else (ok tt, record e { tx = abort_live e; live = []; closed = true })

abbrev pub read_op : WriteOp → Result Bytes
read_op op = if op.del then err err_not_found else ok op.val

abbrev pub found : Option Bytes → Result Bytes
found none = err err_not_found
found (some v) = ok v

-- `Get`, on the transaction that the handle points to.
abbrev pub read : MemTx → Keyspace → Bytes → Result Bytes
read t ks key = if t.done then err err_done else elim (find ks key t.writes) [
  | some op ↦ read_op op
  | none ↦ found (value_in t.snap ks key)
]

unfoldable pub get : Engine → ℕ → Keyspace → Bytes → Result Bytes
get e i ks key = read (e.tx i) ks key

-- The tail that `Put` and `Delete` share.
unfoldable pub buffer : Engine → ℕ → Keyspace → Bytes → WriteOp → Reply (Unit {0})
buffer e i ks key op =
    let t = e.tx i in
    if t.done
    then (err err_done, e)
    else if t.ro
    then (err err_read_only, e)
    else (ok tt, set_tx e i (record t { writes = store ks key op t.writes }))

unfoldable pub put : Engine → ℕ → Keyspace → Bytes → Bytes → Reply (Unit {0})
unfolding buffer
put e i ks key val = buffer e i ks key (record { val = val; del = false })

unfoldable pub delete : Engine → ℕ → Keyspace → Bytes → Reply (Unit {0})
unfolding buffer
delete e i ks key = buffer e i ks key (record { val = []; del = true })

abbrev pub finish_locked : Engine → ℕ → Engine
finish_locked e i = record e {
  tx = update e.tx i (record (e.tx i) { done = true; writes = []; marks = [] });
  live = without i e.live;
}

abbrev pub run_hook : Option (Result (Unit {0})) → Result (Unit {0})
run_hook none = ok tt
run_hook (some outcome) = outcome

-- Finishes the transaction and counts it.
abbrev pub committed : Engine → ℕ → Engine
committed e i = let f = finish_locked e i in record f { commits = bump e.commits 1 }

-- From `BeforeCommit` on.
abbrev pub publish : Engine → ℕ → Result (Unit {0}) → Reply (Unit {0})
publish e i (err x) = (err x, e)
publish e i (ok _) =
    let f = committed e i in
    (run_hook e.hooks.after_commit, record f { current = apply_writes (e.tx i).writes e.current })

unfoldable pub commit : Engine → ℕ → Reply (Unit {0})
commit e i =
    let t = e.tx i in
    if e.closed
    then (err err_closed, e)
    else if t.done
    then (err err_done, e)
    else if t.ro
    then (ok tt, committed e i)
    else if has_writes t.writes
    then publish e i (run_hook e.hooks.before_commit)
    else (ok tt, committed e i)

unfoldable pub rollback : Engine → ℕ → Reply (Unit {0})
rollback e i =
    if (e.tx i).done
    then (err err_done, e)
    else (ok tt, let f = finish_locked e i in record f { rollbacks = bump e.rollbacks 1 })

unfoldable pub mark : Engine → ℕ → Reply ℕ
mark e i =
    let t = e.tx i in
    let marks = t.marks ++ t.writes ∷ [] in
    if t.done
    then (err err_done, e)
    else (ok (length marks), set_tx e i (record t { marks = marks }))

abbrev pub restore : Engine → ℕ → ℕ → Option (WriteSet WriteOp) → Reply (Unit {0})
restore e i n none = (err invalid_argument, e)
restore e i n (some w) =
    let t = e.tx i in (ok tt, set_tx e i (record t { writes = w; marks = take n t.marks }))

-- `mark < 1 || mark > len(t.marks)` is refused, and else `t.marks[mark-1]` is there.
unfoldable pub rollback_to : Engine → ℕ → ℕ → Reply (Unit {0})
rollback_to e i m =
    let t = e.tx i in
    if t.done
    then (err err_done, e)
    else if m == 0
    then (err invalid_argument, e)
    else restore e i (m - 1) (get_elem? t.marks (m - 1))
