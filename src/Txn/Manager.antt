-- ===== src/Txn/Manager.antt =====
-- txn/manager.go and the upper half of txn/tx.go: the manager's transactions. A call holds the
-- locks that it needs and is one step here; `now` is what `time.Now` returns in it. A `*Tx` is a
-- handle into the heap `tx`, the handles below `next` in use.
pub mod Commit
pub mod Isolation
pub mod Calls
pub mod Snapshots
pub mod Others
pub mod Run
pub mod Refines
use mini_graph_db.Prelude.{
  ℕ, suc, ◌+◌, ◌-◌, ◌%◌, ◌^◌, Bool, true, false, not, Option, none, some, List, [], ◌∷◌, ◌++◌,
  if◌then◌else◌, length, take, get_elem?, ltb, leb, ◌==◌, nat_eq, ◌||◌, ◌&&◌,
}
use mini_graph_db.Prelude.Bytes.{Bytes}
use mini_graph_db.Prelude.Int.{ℤ, pos, ◌+ℤ◌}
use mini_graph_db.Storage.{
  Keyspace, Result, ok, err, ◌>>=◌, ◌>>◌, err_not_found, err_closed, err_done, err_read_only,
  constraint_violation, resource_exhausted, invalid_argument, is_not_found, ks_version,
}
use mini_graph_db.Storage.WriteSet.{WriteSet, find, store, has_writes, write_count}
use mini_graph_db.Memory.Engine.{Hooks, run_hook, member, without}
use mini_graph_db.Txn.Backend.{Backend}
use mini_graph_db.Txn.Version.{meta_key, encode_oracle}
use mini_graph_db.Txn.Versions.{WriteOp, check_ks, read_at, validate, publish}

pub record Tx : Type 0 where
  pub id : ℕ
  pub snapshot : ℕ
  pub commit_ts : ℕ
  pub ro : Bool
  pub done : Bool
  pub writes : WriteSet WriteOp
  pub marks : List (WriteSet WriteOp)
  pub last : ℕ
  pub started : ℕ

-- The caps of `Options`, after `normalize`; `none` where the cap is negative, the timeout 0.
pub record Options : Type 0 where
  pub max_open_txns : Option ℕ
  pub max_write_set : Option ℕ
  pub idle_timeout : Option ℕ

abbrev pub reached : Option ℕ → ℕ → Bool
reached none n = false
reached (some cap) n = leb cap n

pub record Manager (E : Type 0) : Type 0 where
  pub eng : E
  pub opt : Options
  pub hooks : Hooks
  pub next_txn_id : ℕ
  pub commit_ts : ℕ
  pub live_keys : ℤ
  pub tx : ℕ → Tx
  pub next : ℕ
  pub live : List ℕ
  pub commits : ℕ
  pub rollbacks : ℕ
  pub closed : Bool

abbrev pub wrap : ℕ → ℕ
wrap n = n % 2 ^ 64

abbrev pub update : (ℕ → Tx) → ℕ → Tx → ℕ → Tx
update f i t j = if i == j then t else f j

abbrev pub Reply : Type 0 → Type 0 → Type 0
Reply E A = Result A × Manager E

-- `timeout > 0 && time.Since(last) > timeout`.
abbrev pub idle : Option ℕ → ℕ → ℕ → Bool
idle none last now = false
idle (some timeout) last now = ltb (last + timeout) now

abbrev pub or_unwritten : Option WriteOp → WriteOp
or_unwritten none = record { val = []; del = false; unique = false; shadowed = false }
or_unwritten (some op) = op

abbrev pub is_some : Option WriteOp → Bool
is_some none = false
is_some (some _) = true

-- The operation that `put` stores over the one before it.
abbrev pub put_op : Bytes → Bool → WriteOp → WriteOp
put_op val unique prev = record {
  val = val;
  del = false;
  unique = unique || prev.unique;
  shadowed = prev.shadowed || prev.del;
}

module _ {E : Type 0} where
  abbrev pub set_tx : Manager E → ℕ → Tx → Manager E
  set_tx m i t = record m { tx = update m.tx i t }

  unfoldable pub begin : Manager E → Bool → ℕ → Reply E ℕ
  begin m read_only now =
      if m.closed
      then (err err_closed, m)
      else if reached m.opt.max_open_txns (length m.live)
      then (err resource_exhausted, m)
      else (
        ok m.next,
        record m {
          next_txn_id = wrap (m.next_txn_id + 1);
          tx = update m.tx m.next (record {
            id = m.next_txn_id;
            snapshot = m.commit_ts;
            commit_ts = 0;
            ro = read_only;
            done = false;
            writes = [];
            marks = [];
            last = now;
            started = now;
          });
          next = suc m.next;
          live = m.next ∷ m.live;
        },
      )

  -- `drop(tx, true)`.
  abbrev pub dropped : Manager E → ℕ → Manager E
  dropped m i = record m { live = without i m.live; rollbacks = wrap (m.rollbacks + 1) }

  unfoldable pub touch : Manager E → ℕ → ℕ → Reply E (Unit {0})
  touch m i now =
      let t = m.tx i in
      if t.done
      then (err err_done, m)
      else if idle m.opt.idle_timeout t.last now
      then (err resource_exhausted, dropped (set_tx m i (record t { done = true; writes = [] })) i)
      else (ok tt, set_tx m i (record t { last = now }))

  -- What follows a `touch` that succeeds.
  abbrev pub after_touch : {A : Type 0} → Reply E (Unit {0}) → (Manager E → Reply E A) → Reply E A
  after_touch (ok _, m) f = f m
  after_touch (err e, m) f = (err e, m)

  -- `checkKS`, then `touch`.
  abbrev pub entered :
      {A : Type 0} → Manager E → ℕ → Keyspace → ℕ → (Manager E → Reply E A) → Reply E A
  entered m i ks now f = elim (check_ks ks) [
    | err e ↦ (err e, m)
    | ok _ ↦ after_touch (touch m i now) f
  ]

  -- `reserveLocked` refuses a new key past the cap.
  abbrev pub full : Manager E → Tx → Keyspace → Bytes → Bool
  full m t ks key =
      not (is_some (find ks key t.writes)) && reached m.opt.max_write_set (write_count t.writes)

  -- The locked part that `put` and `Delete` share, with the operation that they store.
  abbrev pub buffer : Manager E → ℕ → Keyspace → Bytes → WriteOp → Reply E (Unit {0})
  buffer m i ks key op =
      let t = m.tx i in
      if t.done
      then (err err_done, m)
      else if t.ro
      then (err err_read_only, m)
      else if full m t ks key
      then (err resource_exhausted, m)
      else (ok tt, set_tx m i (record t { writes = store ks key op t.writes }))

  unfoldable pub put_with : Manager E → ℕ → Keyspace → Bytes → Bytes → Bool → ℕ → Reply E (Unit {0})
  unfolding touch check_ks
  put_with m i ks key val unique now =
      entered m i ks now
        λ m'. buffer m' i ks key (put_op val unique (or_unwritten (find ks key (m'.tx i).writes)))

  unfoldable pub put : Manager E → ℕ → Keyspace → Bytes → Bytes → ℕ → Reply E (Unit {0})
  unfolding put_with
  put m i ks key val now = put_with m i ks key val false now

  unfoldable pub defer_unique : Manager E → ℕ → Keyspace → Bytes → Bytes → ℕ → Reply E (Unit {0})
  unfolding put_with
  defer_unique m i ks key val now = put_with m i ks key val true now

  unfoldable pub delete : Manager E → ℕ → Keyspace → Bytes → ℕ → Reply E (Unit {0})
  unfolding touch check_ks
  delete m i ks key now =
      entered m i ks now
        λ m'. buffer m' i ks key (record { val = []; del = true; unique = false; shadowed = false })

  abbrev pub finish : Manager E → ℕ → Manager E
  finish m i = record m {
    tx = update m.tx i (record (m.tx i) { done = true; writes = []; marks = [] });
    live = without i m.live;
    commits = wrap (m.commits + 1);
  }

  unfoldable pub rollback : Manager E → ℕ → Reply E (Unit {0})
  rollback m i =
      let t = m.tx i in
      if t.done
      then (err err_done, m)
      else (ok tt, dropped (set_tx m i (record t { done = true; writes = []; marks = [] })) i)

  unfoldable pub mark : Manager E → ℕ → ℕ → Reply E ℕ
  unfolding touch
  mark m i now = after_touch (touch m i now) λ m'.
      let t = m'.tx i in
      let marks = t.marks ++ t.writes ∷ [] in
      (ok (length marks), set_tx m' i (record t { marks = marks }))

  abbrev pub restore : Manager E → ℕ → ℕ → Option (WriteSet WriteOp) → Reply E (Unit {0})
  restore m i n none = (err invalid_argument, m)
  restore m i n (some w) =
      let t = m.tx i in (ok tt, set_tx m i (record t { writes = w; marks = take n t.marks }))

  unfoldable pub rollback_to : Manager E → ℕ → ℕ → ℕ → Reply E (Unit {0})
  unfolding touch
  rollback_to m i mk now = after_touch (touch m i now) λ m'.
      if mk == 0
      then (err invalid_argument, m')
      else restore m' i (mk - 1) (get_elem? (m'.tx i).marks (mk - 1))

  abbrev pub abort_live : Manager E → ℕ → Tx
  abort_live m i = if member i m.live then record (m.tx i) { done = true; writes = [] } else m.tx i

  unfoldable pub crash : Manager E → Reply E (Unit {0})
  crash m = if m.closed then (err err_closed, m) else (
    ok tt,
    record m { tx = abort_live m; live = []; rollbacks = wrap (m.rollbacks + length m.live) },
  )

module _ (b : Backend) where
  -- `eng.Begin`, then `readAt`; the read-only transaction is rolled back.
  abbrev pub read : b.Eng → Keyspace → Bytes → ℕ → Result Bytes
  read e ks key snap = do t ← b.begin e; read_at b t ks key snap

  unfoldable pub get : Manager b.Eng → ℕ → Keyspace → Bytes → ℕ → Reply b.Eng Bytes
  unfolding touch check_ks
  get m i ks key now = entered m i ks now λ m'.
      let t = m'.tx i in
      elim (find ks key t.writes) [
        | some op ↦ (if op.del then err err_not_found else ok op.val, m')
        | none ↦ (read m'.eng ks key t.snapshot, m')
      ]

  -- The existence check of `InsertUnique`.
  abbrev pub unique_check : Result Bytes → Result (Unit {0})
  unique_check (ok _) = err constraint_violation
  unique_check (err e) = if is_not_found e then ok tt else err e

  abbrev pub insert_checked :
      Manager b.Eng → ℕ → Keyspace → Bytes → Bytes → ℕ → Result (Unit {0}) → Reply b.Eng (Unit {0})
  insert_checked m i ks key val now (err e) = (err e, m)
  insert_checked m i ks key val now (ok _) = put_with m i ks key val true now

  unfoldable pub insert_unique :
      Manager b.Eng → ℕ → Keyspace → Bytes → Bytes → ℕ → Reply b.Eng (Unit {0})
  unfolding put_with
  insert_unique m i ks key val now = entered m i ks now λ m'.
      let t = m'.tx i in
      if t.ro
      then (err err_read_only, m')
      else insert_checked m' i ks key val now (elim (find ks key t.writes) [
        | some op ↦ if op.del then ok tt else err constraint_violation
        | none ↦ unique_check (read m'.eng ks key t.snapshot)
      ])

  -- The engine's part of `Commit`: validate, publish, stamp the oracle, commit.
  unfoldable pub write_versions : b.Eng → ℕ → ℕ → ℕ → WriteSet WriteOp → Result (ℤ × b.Eng)
  write_versions e snap cts next_txn w = do
    t ← b.begin e
    validate b t snap w
    p ← publish b t cts w (pos 0)
    u ←
        b.put p.1 ks_version meta_key
          (encode_oracle (record { next_txn = next_txn; commit_ts = cts }))
    e' ← b.commit u
    ok (p.0, e')

  abbrev pub published : Manager b.Eng → ℕ → ℕ → Result (ℤ × b.Eng) → Reply b.Eng (Unit {0})
  published m i cts (err e) = (err e, m)
  published m i cts (ok (delta, e)) =
      let f = finish m i in
      (
        run_hook m.hooks.after_commit,
        record f {
          eng = e;
          commit_ts = cts;
          live_keys = m.live_keys +ℤ delta;
          tx =
              update m.tx i
                (record (m.tx i) { done = true; writes = []; marks = []; commit_ts = cts });
        },
      )

  abbrev pub commit_writes : Manager b.Eng → ℕ → Result (Unit {0}) → Reply b.Eng (Unit {0})
  commit_writes m i (err e) = (err e, m)
  commit_writes m i (ok _) =
      let t = m.tx i in
      let cts = wrap (m.commit_ts + 1) in
      published m i cts (write_versions m.eng t.snapshot cts m.next_txn_id t.writes)

  unfoldable pub commit : Manager b.Eng → ℕ → ℕ → Reply b.Eng (Unit {0})
  unfolding touch
  commit m i now = after_touch (touch m i now) λ m'.
      let t = m'.tx i in
      if t.ro || not (has_writes t.writes)
      then (ok tt, finish m' i)
      else commit_writes m' i (run_hook m'.hooks.before_commit)
