-- ===== src/Txn/Manager/Run.antt =====
-- Runs of calls of the manager, and what they leave of what a transaction reads.
use mini_graph_db.Prelude.{
  ℕ, suc, ◌+◌, ◌^◌, ◌<◌, true, false, Bool, Option, none, some, List, [], ◌∷◌, ◌≡◌, ◌≢◌, arith,
  if◌then◌else◌, nat_eq, ◌∙◌, All, length, sym,
}
use mini_graph_db.Prelude.Bytes.{Bytes}
use mini_graph_db.Storage.{Keyspace, Result, ok, err, err_not_found, err_done, resource_exhausted}
use mini_graph_db.Storage.WriteSet.{find}
use mini_graph_db.Txn.Backend.{Backend}
use mini_graph_db.Txn.Versions.{WriteOp, check_ks}
use mini_graph_db.Txn.Manager.{
  Manager, Tx, Reply, touch, begin, put, defer_unique, insert_unique, insert_checked, delete,
  rollback, mark, rollback_to, commit, get, read, idle,
}
use mini_graph_db.Txn.Manager.Calls.{
  Keeps, Keeps-refl, entered-Keeps, if-Keeps, checked-IsUser, begin-Keeps, put_with-Keeps,
  delete-Keeps, rollback-Keeps, mark-Keeps, rollback_to-Keeps,
}
use mini_graph_db.Txn.Manager.Snapshots.{
  IsSound, Extends, Keeps-Extends, Extends-trans, commit-Extends,
}
use mini_graph_db.Txn.Manager.Others.{Leaves, Keeps-Leaves, Leaves-trans, commit-Leaves}

module _ (b : Backend) where
  open b use {Eng}

  -- Calls on the manager's transactions, but not Vacuum, Crash and Close of the manager;
  -- `now` is the time of the call.
  pub data Call : Type 0 where
    begins : Bool → ℕ → Call
    gets : ℕ → Keyspace → Bytes → ℕ → Call
    puts : ℕ → Keyspace → Bytes → Bytes → ℕ → Call
    defers : ℕ → Keyspace → Bytes → Bytes → ℕ → Call
    inserts : ℕ → Keyspace → Bytes → Bytes → ℕ → Call
    deletes : ℕ → Keyspace → Bytes → ℕ → Call
    marks : ℕ → ℕ → Call
    rolls_back_to : ℕ → ℕ → ℕ → Call
    rolls_back : ℕ → Call
    commits : ℕ → ℕ → Call

  unfoldable pub apply : Manager Eng → Call → Manager Eng
  apply m (begins ro now) = (begin m ro now).1
  apply m (gets i ks key now) = (get b m i ks key now).1
  apply m (puts i ks key val now) = (put m i ks key val now).1
  apply m (defers i ks key val now) = (defer_unique m i ks key val now).1
  apply m (inserts i ks key val now) = (insert_unique b m i ks key val now).1
  apply m (deletes i ks key now) = (delete m i ks key now).1
  apply m (marks i now) = (mark m i now).1
  apply m (rolls_back_to i mk now) = (rollback_to m i mk now).1
  apply m (rolls_back i) = (rollback m i).1
  apply m (commits i now) = (commit b m i now).1

  unfoldable pub run : Manager Eng → List Call → Manager Eng
  run m [] = m
  run m (c ∷ cs) = run (apply m c) cs

  -- A key that is written is shorter than 2 ^ 32.
  abbrev pub FitsCall : Call → Type 0
  FitsCall (puts i ks key val now) = length key < 2 ^ 32
  FitsCall (defers i ks key val now) = length key < 2 ^ 32
  FitsCall (inserts i ks key val now) = length key < 2 ^ 32
  FitsCall (deletes i ks key now) = length key < 2 ^ 32
  FitsCall _ = Unit

  -- A call on another transaction than `i`.
  abbrev pub IsOther : ℕ → Call → Type 0
  IsOther i (begins ro now) = Unit
  IsOther i (gets j ks key now) = i ≢ j
  IsOther i (puts j ks key val now) = i ≢ j
  IsOther i (defers j ks key val now) = i ≢ j
  IsOther i (inserts j ks key val now) = i ≢ j
  IsOther i (deletes j ks key now) = i ≢ j
  IsOther i (marks j now) = i ≢ j
  IsOther i (rolls_back_to j mk now) = i ≢ j
  IsOther i (rolls_back j) = i ≢ j
  IsOther i (commits j now) = i ≢ j

  get-Keeps :
      (m : Manager Eng) (i : ℕ) (ks : Keyspace) (key : Bytes) (now : ℕ)
      → Keeps m i (get b m i ks key now).1
  unfolding get
  get-Keeps m i ks key now =
      entered-Keeps m i ks now _ (λ checked n. got n (find ks key (n.tx i).writes))
    where
      got :
          (n : Manager Eng) (o : Option WriteOp)
          → Keeps n i
              (elim o as (λ _. Reply Eng Bytes) [
                | some op ↦ (if op.del then err err_not_found else ok op.val, n)
                | none ↦ (read b n.eng ks key (n.tx i).snapshot, n)
              ]).1
      got n none = Keeps-refl n i
      got n (some op) = Keeps-refl n i

  insert_unique-Keeps :
      (m : Manager Eng) (i : ℕ) (ks : Keyspace) (key val : Bytes) (now : ℕ)
      → length key < 2 ^ 32
      → Keeps m i (insert_unique b m i ks key val now).1
  unfolding insert_unique
  insert_unique-Keeps m i ks key val now short =
      entered-Keeps m i ks now _
        (λ checked n. if-Keeps n i (n.tx i).ro _ _ (Keeps-refl n i) (inserted n _))
    where
      inserted :
          (n : Manager Eng) (r : Result (Unit {0}))
          → Keeps n i (insert_checked b n i ks key val now r).1
      inserted n (err e) = Keeps-refl n i
      inserted n (ok u) = put_with-Keeps n i ks key val true now short

  -- Every call keeps the manager in order and the snapshots up to its commit timestamp.
  apply-Extends :
      (m : Manager Eng) (c : Call)
      → IsSound b m
      → FitsCall c
      → m.commit_ts + 1 < 2 ^ 64
      → Extends b 1 m (apply m c)
  unfolding apply put defer_unique
  apply-Extends m (begins ro now) s f h = Keeps-Extends b 1 m _ m.next s (begin-Keeps m ro now)
  apply-Extends m (gets i ks key now) s f h = Keeps-Extends b 1 m _ i s (get-Keeps m i ks key now)
  apply-Extends m (puts i ks key val now) s f h =
      Keeps-Extends b 1 m _ i s (put_with-Keeps m i ks key val false now f)
  apply-Extends m (defers i ks key val now) s f h =
      Keeps-Extends b 1 m _ i s (put_with-Keeps m i ks key val true now f)
  apply-Extends m (inserts i ks key val now) s f h =
      Keeps-Extends b 1 m _ i s (insert_unique-Keeps m i ks key val now f)
  apply-Extends m (deletes i ks key now) s f h =
      Keeps-Extends b 1 m _ i s (delete-Keeps m i ks key now f)
  apply-Extends m (marks i now) s f h = Keeps-Extends b 1 m _ i s (mark-Keeps m i now)
  apply-Extends m (rolls_back_to i mk now) s f h =
      Keeps-Extends b 1 m _ i s (rollback_to-Keeps m i mk now)
  apply-Extends m (rolls_back i) s f h = Keeps-Extends b 1 m _ i s (rollback-Keeps m i)
  apply-Extends m (commits i now) s f h = commit-Extends b m i now s h

  apply-Leaves :
      (m : Manager Eng) (c : Call) (i : ℕ)
      → FitsCall c
      → IsOther i c
      → i < m.next
      → Leaves b m (apply m c) i
  unfolding apply put defer_unique
  apply-Leaves m (begins ro now) i f o used =
      Keeps-Leaves b m _ m.next i (λ e. omega (arith, e, used)) (begin-Keeps m ro now)
  apply-Leaves m (gets j ks key now) i f o used =
      Keeps-Leaves b m _ j i o (get-Keeps m j ks key now)
  apply-Leaves m (puts j ks key val now) i f o used =
      Keeps-Leaves b m _ j i o (put_with-Keeps m j ks key val false now f)
  apply-Leaves m (defers j ks key val now) i f o used =
      Keeps-Leaves b m _ j i o (put_with-Keeps m j ks key val true now f)
  apply-Leaves m (inserts j ks key val now) i f o used =
      Keeps-Leaves b m _ j i o (insert_unique-Keeps m j ks key val now f)
  apply-Leaves m (deletes j ks key now) i f o used =
      Keeps-Leaves b m _ j i o (delete-Keeps m j ks key now f)
  apply-Leaves m (marks j now) i f o used = Keeps-Leaves b m _ j i o (mark-Keeps m j now)
  apply-Leaves m (rolls_back_to j mk now) i f o used =
      Keeps-Leaves b m _ j i o (rollback_to-Keeps m j mk now)
  apply-Leaves m (rolls_back j) i f o used = Keeps-Leaves b m _ j i o (rollback-Keeps m j)
  apply-Leaves m (commits j now) i f o used = commit-Leaves b m j now i o

  -- Any sequence of Begin, Get, Put, DeferUnique, InsertUnique, Delete, Mark, RollbackTo, Rollback and Commit keeps a
  -- sound manager sound and its oracle record in step with it, and changes nothing at the snapshots up
  -- to its commit timestamp: these calls never rewrite what a commit has published. Vacuum, which takes
  -- versions away, Crash and Close are not among them. Written keys are shorter than 2 ^ 32
  -- bytes, and the timestamps must not overflow.
  pub run-Extends :
      (cs : List Call) (m : Manager Eng)
      → IsSound b m
      → All FitsCall cs
      → m.commit_ts + length cs < 2 ^ 64
      → Extends b (length cs) m (run m cs)
  unfolding run
  run-Extends [] m s f h = Keeps-Extends b 0 m m 0 s (Keeps-refl m 0)
  run-Extends (c ∷ cs) m s f h =
      let x = apply-Extends m c s f.0 (omega (arith, h)) in
      Extends-trans b 1 (length cs) (length (c ∷ cs)) m (apply m c) (run (apply m c) cs)
        (omega arith) x (run-Extends cs (apply m c) x.sound f.1 (omega (arith, h, x.near)))

  run-Leaves :
      (cs : List Call) (m : Manager Eng) (i : ℕ)
      → All FitsCall cs
      → All (IsOther i) cs
      → i < m.next
      → Leaves b m (run m cs) i
  unfolding run
  run-Leaves [] m i f o used =
      Keeps-Leaves b m m (suc i) i (λ e. omega (arith, e)) (Keeps-refl m (suc i))
  run-Leaves (c ∷ cs) m i f o used =
      let x = apply-Leaves m c i f.0 o.0 used in
      Leaves-trans b m (apply m c) (run (apply m c) cs) i x
        (run-Leaves cs (apply m c) i f.1 o.1 (omega (arith, x.handles, used)))

  -- What `Get` answers, by the parts of the manager that it looks at.
  abbrev answer : Eng → Option ℕ → Tx → Keyspace → Bytes → ℕ → Result Bytes
  answer e timeout t ks key now = elim (check_ks ks) [
    | err x ↦ err x
    | ok _ ↦
        if t.done
        then err err_done
        else if idle timeout t.last now
        then err resource_exhausted
        else elim (find ks key t.writes) [
          | some op ↦ if op.del then err err_not_found else ok op.val
          | none ↦ read b e ks key t.snapshot
        ]
  ]

  answer-ext :
      (e e' : Eng) (timeout : Option ℕ) (t : Tx) (ks : Keyspace) (key : Bytes) (now : ℕ)
      → (check_ks ks ≡ ok tt → read b e' ks key t.snapshot ≡ read b e ks key t.snapshot)
      → answer e' timeout t ks key now ≡ answer e timeout t ks key now
  unfolding check_ks
  answer-ext e e' timeout t ks key now same = ground (arith, same)

  get-answer :
      (m : Manager Eng) (i : ℕ) (ks : Keyspace) (key : Bytes) (now : ℕ)
      → (get b m i ks key now).0 ≡ answer m.eng m.opt.idle_timeout (m.tx i) ks key now
  unfolding get touch
  get-answer m i ks key now = ground arith

  -- From a sound manager on, no calls of other transactions, commits included, change what a
  -- transaction that was begun before reads of a key. Keys are shorter than 2 ^ 32 bytes, and the
  -- timestamps must not overflow.
  pub get-others :
      (cs : List Call) (m : Manager Eng) (i : ℕ) (ks : Keyspace) (key : Bytes) (now : ℕ)
      → IsSound b m
      → All FitsCall cs
      → All (IsOther i) cs
      → m.commit_ts + length cs < 2 ^ 64
      → i < m.next
      → length key < 2 ^ 32
      → (get b (run m cs) i ks key now).0 ≡ (get b m i ks key now).0
  get-others cs m i ks key now s f o h used short =
      let x = run-Extends cs m s f h in
      let y = run-Leaves cs m i f o used in
      get-answer (run m cs) i ks key now
      ∙ rw (y.same_tx, y.opt)
          (answer-ext m.eng (run m cs).eng m.opt.idle_timeout (m.tx i) ks key now (λ checked.
            x.reads ks key (m.tx i).snapshot (checked-IsUser ks key short checked) (s.txs i).began))
      ∙ sym (get-answer m i ks key now)
