-- ===== src/Memory/Engine/Savepoints.antt =====
-- `Mark` and `RollbackTo`: a savepoint gives back the transaction's view.
use mini_graph_db.Prelude.{
  ℕ, suc, ◌-◌, false, Option, none, some, List, [], ◌∷◌, ◌++◌, ◌≡◌, refl, arith, length, get_elem?,
  take, length-append, take-append, nat_eq, ◌∙◌, sym, ap,
}
use mini_graph_db.Prelude.Bytes.{Bytes}
use mini_graph_db.Storage.{Keyspace, ok}
use mini_graph_db.Storage.WriteSet.{WriteSet, find}
use mini_graph_db.Memory.Snapshot.{WriteOp, Snapshot, value_in}
use mini_graph_db.Memory.Engine.{Engine, MemTx, read, get, put, delete, mark, rollback_to, set_tx}

-- A write of the transaction: a put, or a delete where there is no value.
abbrev pub write : Engine → ℕ → Keyspace × Bytes × Option Bytes → Engine
write e i (ks, k, none) = (delete e i ks k).1
write e i (ks, k, some v) = (put e i ks k v).1

abbrev pub write_all : Engine → ℕ → List (Keyspace × Bytes × Option Bytes) → Engine
write_all e i [] = e
write_all e i (x ∷ xs) = write_all (write e i x) i xs

-- What a write leaves alone.
abbrev Same : MemTx → MemTx → Type 0
Same a b = (a.snap ≡ b.snap) × (a.marks ≡ b.marks) × (a.done ≡ b.done)

write-Same :
    (e : Engine) (i : ℕ) (x : Keyspace × Bytes × Option Bytes) → Same ((write e i x).tx i) (e.tx i)
unfolding put delete
write-Same e i (ks, k, none) = ground arith
write-Same e i (ks, k, some v) = ground arith

write_all-Same :
    (xs : List (Keyspace × Bytes × Option Bytes)) (e : Engine) (i : ℕ)
    → Same ((write_all e i xs).tx i) (e.tx i)
write_all-Same [] e i = (refl, refl, refl)
write_all-Same (x ∷ xs) e i =
    let now = write-Same e i x in
    let later = write_all-Same xs (write e i x) i in
    (later.0 ∙ now.0, later.1 ∙ now.1, later.2 ∙ now.2)

get_elem?-append {ℓ} :
    {A : Type ℓ} (xs : List A) (y : A) → get_elem? (xs ++ y ∷ []) (length xs) ≡ some y
get_elem?-append [] y = refl
get_elem?-append (x ∷ xs) y = get_elem?-append xs y

rollback_to-suc :
    (f : Engine) (i n : ℕ) (w : WriteSet WriteOp)
    → (f.tx i).done ≡ false
    → get_elem? (f.tx i).marks n ≡ some w
    → rollback_to f i (suc n)
      ≡ (ok tt, set_tx f i (record (f.tx i) { writes = w; marks = take n (f.tx i).marks }))
unfolding rollback_to
rollback_to-suc f i n w live there =
    let pred : suc n - 1 ≡ n = omega arith in ground (arith, pred, live, there)

read-Same :
    (a b : MemTx) (ks : Keyspace) (k : Bytes)
    → a.snap ≡ b.snap
    → a.writes ≡ b.writes
    → a.done ≡ b.done
    → read a ks k ≡ read b ks k
read-Same a b ks k p q r =
    ground (arith, ap (λ (s : Snapshot). value_in s ks k) p, ap (find ks k) q)

module _ (e : Engine) (i : ℕ) (xs : List (Keyspace × Bytes × Option Bytes))
    (live : (e.tx i).done ≡ false) where
  written : Engine
  written = write_all (mark e i).1 i xs

  marked-tx :
      ((mark e i).0 ≡ ok (suc (length (e.tx i).marks)))
      × (((mark e i).1.tx i).snap ≡ (e.tx i).snap)
      × (((mark e i).1.tx i).marks ≡ (e.tx i).marks ++ (e.tx i).writes ∷ [])
      × (((mark e i).1.tx i).done ≡ false)
  unfolding mark
  marked-tx = ground (arith, length-append (e.tx i).marks ((e.tx i).writes ∷ []))

  written-tx : Same (written.tx i) ((mark e i).1.tx i)
  unfolding written
  written-tx = write_all-Same xs (mark e i).1 i

  restored : rollback_to written i (suc (length (e.tx i).marks)) ≡ (
    ok tt,
    set_tx written i (record (written.tx i) {
      writes = (e.tx i).writes;
      marks = take (length (e.tx i).marks) (written.tx i).marks;
    }),
  )
  restored =
      rollback_to-suc written i (length (e.tx i).marks) (e.tx i).writes (written-tx.2 ∙ marked-tx.3)
        (rw (written-tx.1, marked-tx.2) (get_elem?-append (e.tx i).marks (e.tx i).writes))

  restored-tx :
      (rollback_to written i (suc (length (e.tx i).marks))).1.tx i ≡ record (written.tx i) {
        writes = (e.tx i).writes;
        marks = take (length (e.tx i).marks) (written.tx i).marks;
      }
  restored-tx = rw restored (ground arith)

  read-restored :
      (ks : Keyspace) (k : Bytes)
      → read ((rollback_to written i (suc (length (e.tx i).marks))).1.tx i) ks k
        ≡ read (e.tx i) ks k
  read-restored ks k =
      read-Same ((rollback_to written i (suc (length (e.tx i).marks))).1.tx i) (e.tx i) ks k
        (ap (λ (t : MemTx). t.snap) restored-tx ∙ written-tx.0 ∙ marked-tx.1)
        (ap (λ (t : MemTx). t.writes) restored-tx)
        (ap (λ (t : MemTx). t.done) restored-tx ∙ written-tx.2 ∙ marked-tx.3 ∙ sym live)

  marks-restored :
      ((rollback_to written i (suc (length (e.tx i).marks))).1.tx i).marks ≡ (e.tx i).marks
  marks-restored =
      rw (restored-tx, written-tx.1, marked-tx.2)
        (take-append (e.tx i).marks ((e.tx i).writes ∷ []))

-- After a mark and any writes of the transaction, rolling back to the mark succeeds, gives back what
-- the transaction read when it made the mark, and leaves the savepoints that it had before.
pub get-rollback_to :
    (e : Engine) (i : ℕ) (xs : List (Keyspace × Bytes × Option Bytes)) (ks : Keyspace) (k : Bytes)
    → (e.tx i).done ≡ false
    → let m = suc (length (e.tx i).marks) in
      let back = rollback_to (write_all (mark e i).1 i xs) i m in
      ((mark e i).0 ≡ ok m)
      × (back.0 ≡ ok tt)
      × (get back.1 i ks k ≡ get e i ks k)
      × ((back.1.tx i).marks ≡ (e.tx i).marks)
unfolding written get
get-rollback_to e i xs ks k live = (
  (marked-tx e i xs live).0,
  rw (restored e i xs live),
  read-restored e i xs live ks k,
  marks-restored e i xs live,
)
