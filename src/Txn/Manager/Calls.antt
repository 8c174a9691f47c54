-- ===== src/Txn/Manager/Calls.antt =====
-- The calls of the manager as steps, and what each keeps: the engine and the timestamps, but for a
-- commit, and the other transactions.
use mini_graph_db.Prelude.{
  ℕ, ◌-◌, ◌^◌, ◌≤◌, ◌<◌, true, false, Bool, Option, none, some, [], ◌∷◌, ◌≡◌, ◌≢◌, inl, inr, refl,
  arith, if◌then◌else◌, nat_eq, nat_beq_iff, ◌==◌, ◌∙◌, All, Bool-cases, get_elem?, length,
}
use mathlib.Core.Path.{subst}
use mini_graph_db.Prelude.Alls.{All-append, All-take, All-get_elem?, All-insert}
use mini_graph_db.Prelude.Assoc.{insert, lookup}
use mini_graph_db.Prelude.Bytes.{Bytes, bytes_eq}
use mini_graph_db.Storage.{Keyspace, Result, ok, err}
use mini_graph_db.Storage.WriteSet.{WriteSet, ops_of, store, IsDistinct, store-IsDistinct}
use mini_graph_db.Txn.Versions.{WriteOp, check_ks}
use mini_graph_db.Txn.Versions.PublishAll.{IsUser}
use mini_graph_db.Txn.Manager.{
  Manager, Tx, Reply, begin, reached, set_tx, touch, after_touch, entered, buffer, put_with, delete,
  rollback, mark, rollback_to, restore, dropped, idle, full,
}
use mini_graph_db.Txn.Manager.Isolation.{AllUser}

-- A write set that holds no key twice, and only users' keys.
abbrev pub FitsWrites : WriteSet WriteOp → Type 0
FitsWrites w = IsDistinct w × AllUser w

-- A transaction that began at or before `ts`.
pub record FitsTx (ts : ℕ) (t : Tx) : Type 0 where
  pub began : t.snapshot ≤ ts
  pub writes_fit : FitsWrites t.writes
  pub marks_fit : All FitsWrites t.marks

-- What a call on transaction `i` that does not commit keeps.
pub record Keeps {E : Type 0} (m : Manager E) (i : ℕ) (n : Manager E) : Type 0 where
  pub same_eng : n.eng ≡ m.eng
  pub same_ts : n.commit_ts ≡ m.commit_ts
  pub same_hooks : n.hooks ≡ m.hooks
  pub same_opt : n.opt ≡ m.opt
  pub next_grows : m.next ≤ n.next
  pub others : (j : ℕ) → j ≢ i → n.tx j ≡ m.tx j
  pub own : (ts : ℕ) → m.commit_ts ≤ ts → FitsTx ts (m.tx i) → FitsTx ts (n.tx i)

ops_of-IsUser :
    (ks : Keyspace) (w : WriteSet WriteOp) → AllUser w → All (λ y. IsUser ks y.0) (ops_of ks w)
unfolding ops_of lookup
ops_of-IsUser ks [] all = tt
ops_of-IsUser ks ((js, ops) ∷ w) all = elim (Bool-cases (js == ks)) [
  | inl same ↦ rw same (subst (λ s. All (λ y. IsUser s y.0) ops) ((nat_beq_iff js ks).0 same) all.0)
  | inr other ↦ rw other (ops_of-IsUser ks w all.1)
]

store-AllUser :
    (ks : Keyspace) (key : Bytes) (op : WriteOp) (w : WriteSet WriteOp)
    → IsUser ks key
    → AllUser w
    → AllUser (store ks key op w)
unfolding store
store-AllUser ks key op w user all =
    All-insert (λ x. All (λ y. IsUser x.0 y.0) x.1) ks (insert key op (ops_of ks w)) w
      (All-insert (λ y. IsUser ks y.0) key op (ops_of ks w) user (ops_of-IsUser ks w all)) all

-- `checkKS` lets users' keyspaces through.
pub checked-IsUser :
    (ks : Keyspace) (key : Bytes) → length key < 2 ^ 32 → check_ks ks ≡ ok tt → IsUser ks key
unfolding check_ks
checked-IsUser ks key short checked = record {
  own = λ same. ground (arith, same, checked);
  short = short;
}

module _ {E : Type 0} where
  pub Keeps-refl : (m : Manager E) (i : ℕ) → Keeps m i m
  Keeps-refl m i = record {
    same_eng = refl;
    same_ts = refl;
    same_hooks = refl;
    same_opt = refl;
    next_grows = omega arith;
    others = λ j h. refl;
    own = λ ts h f. f;
  }

  pub Keeps-trans : (m n o : Manager E) (i : ℕ) → Keeps m i n → Keeps n i o → Keeps m i o
  Keeps-trans m n o i x y = record {
    same_eng = y.same_eng ∙ x.same_eng;
    same_ts = y.same_ts ∙ x.same_ts;
    same_hooks = y.same_hooks ∙ x.same_hooks;
    same_opt = y.same_opt ∙ x.same_opt;
    next_grows = omega (arith, x.next_grows, y.next_grows);
    others = λ j h. y.others j h ∙ x.others j h;
    own = λ ts h f. y.own ts (rw x.same_ts h) (x.own ts h f);
  }

  -- A change of one transaction.
  pub set_tx-Keeps :
      (m : Manager E) (i : ℕ) (t : Tx)
      → ((ts : ℕ) → m.commit_ts ≤ ts → FitsTx ts (m.tx i) → FitsTx ts t)
      → Keeps m i (set_tx m i t)
  set_tx-Keeps m i t h = record {
    same_eng = refl;
    same_ts = refl;
    same_hooks = refl;
    same_opt = refl;
    next_grows = omega arith;
    others = λ j k. ground (arith, k);
    own = λ ts k f. rw ((nat_beq_iff i i).1 refl) (h ts k f);
  }

  pub if-Keeps :
      {A : Type 0} (m : Manager E) (i : ℕ) (c : Bool) (r s : Reply E A)
      → Keeps m i r.1
      → Keeps m i s.1
      → Keeps m i (if c then r else s).1
  if-Keeps m i true r s x y = x
  if-Keeps m i false r s x y = y

  -- Taking a transaction off the list of the live ones changes none.
  dropped-Keeps : (m n : Manager E) (i : ℕ) → Keeps m i n → Keeps m i (dropped n i)
  dropped-Keeps m n i x = record {
    same_eng = x.same_eng;
    same_ts = x.same_ts;
    same_hooks = x.same_hooks;
    same_opt = x.same_opt;
    next_grows = x.next_grows;
    others = x.others;
    own = x.own;
  }

  pub touch-Keeps : (m : Manager E) (i now : ℕ) → Keeps m i (touch m i now).1
  unfolding touch
  touch-Keeps m i now = if-Keeps m i (m.tx i).done _ _ (Keeps-refl m i) (
      if-Keeps m i (idle m.opt.idle_timeout (m.tx i).last now) _ _
        (dropped-Keeps m (set_tx m i (record (m.tx i) { done = true; writes = [] })) i (
          set_tx-Keeps m i (record (m.tx i) { done = true; writes = [] })
            (λ ts h f. record {
              began = f.began;
              writes_fit = ((tt, tt), tt);
              marks_fit = f.marks_fit;
            })))
        (set_tx-Keeps m i (record (m.tx i) { last = now })
          (λ ts h f. record {
            began = f.began;
            writes_fit = f.writes_fit;
            marks_fit = f.marks_fit;
          })))

  after_touch-Keeps :
      {A : Type 0} (m : Manager E) (i : ℕ) (r : Reply E (Unit {0})) (f : Manager E → Reply E A)
      → Keeps m i r.1
      → ((n : Manager E) → Keeps n i (f n).1)
      → Keeps m i (after_touch r f).1
  after_touch-Keeps m i (ok _, n) f x h = Keeps-trans m n (f n).1 i x (h n)
  after_touch-Keeps m i (err e, n) f x h = x

  pub entered-Keeps :
      {A : Type 0} (m : Manager E) (i : ℕ) (ks : Keyspace) (now : ℕ) (f : Manager E → Reply E A)
      → (check_ks ks ≡ ok tt → (n : Manager E) → Keeps n i (f n).1)
      → Keeps m i (entered m i ks now f).1
  entered-Keeps {A = A} m i ks now f h = go (check_ks ks) refl
    where
      go :
          (r : Result (Unit {0}))
          → check_ks ks ≡ r
          → Keeps m i
              (elim r as (λ _. Reply E A) [
                | err e ↦ (err e, m)
                | ok _ ↦ after_touch (touch m i now) f
              ]).1
      go (err e) at = Keeps-refl m i
      go (ok u) at = after_touch-Keeps m i (touch m i now) f (touch-Keeps m i now) (h at)

  buffer-Keeps :
      (m : Manager E) (i : ℕ) (ks : Keyspace) (key : Bytes) (op : WriteOp)
      → IsUser ks key
      → Keeps m i (buffer m i ks key op).1
  buffer-Keeps m i ks key op user = if-Keeps m i (m.tx i).done _ _ (Keeps-refl m i) (
      if-Keeps m i (m.tx i).ro _ _ (Keeps-refl m i) (
        if-Keeps m i (full m (m.tx i) ks key) _ _ (Keeps-refl m i) (
          set_tx-Keeps m i _ (λ ts h f. record {
            began = f.began;
            writes_fit = (
              store-IsDistinct ks key op (m.tx i).writes f.writes_fit.0,
              store-AllUser ks key op (m.tx i).writes user f.writes_fit.1,
            );
            marks_fit = f.marks_fit;
          }))))

  pub rollback-Keeps : (m : Manager E) (i : ℕ) → Keeps m i (rollback m i).1
  unfolding rollback
  rollback-Keeps m i = if-Keeps m i (m.tx i).done _ _ (Keeps-refl m i) (
      dropped-Keeps m (set_tx m i (record (m.tx i) { done = true; writes = []; marks = [] })) i (
        set_tx-Keeps m i _
          (λ ts h f. record { began = f.began; writes_fit = ((tt, tt), tt); marks_fit = tt })))

  pub mark-Keeps : (m : Manager E) (i now : ℕ) → Keeps m i (mark m i now).1
  unfolding mark
  mark-Keeps m i now = after_touch-Keeps m i (touch m i now) _ (touch-Keeps m i now) (λ n.
      set_tx-Keeps n i _ (λ ts h f. record {
        began = f.began;
        writes_fit = f.writes_fit;
        marks_fit = All-append FitsWrites (n.tx i).marks (n.tx i).writes f.marks_fit f.writes_fit;
      }))

  pub rollback_to-Keeps : (m : Manager E) (i mk now : ℕ) → Keeps m i (rollback_to m i mk now).1
  unfolding rollback_to
  rollback_to-Keeps m i mk now = after_touch-Keeps m i (touch m i now) _ (touch-Keeps m i now) (λ n.
      if-Keeps n i (mk == 0) _ _ (Keeps-refl n i)
        (restored n (get_elem? (n.tx i).marks (mk - 1)) refl))
    where
      restored :
          (n : Manager E) (o : Option (WriteSet WriteOp))
          → get_elem? (n.tx i).marks (mk - 1) ≡ o
          → Keeps n i (restore n i (mk - 1) o).1
      restored n none at = Keeps-refl n i
      restored n (some w) at = set_tx-Keeps n i _ (λ ts h f. record {
        began = f.began;
        writes_fit = All-get_elem? FitsWrites (mk - 1) (n.tx i).marks w f.marks_fit at;
        marks_fit = All-take FitsWrites (mk - 1) (n.tx i).marks f.marks_fit;
      })

  pub put_with-Keeps :
      (m : Manager E) (i : ℕ) (ks : Keyspace) (key val : Bytes) (unique : Bool) (now : ℕ)
      → length key < 2 ^ 32
      → Keeps m i (put_with m i ks key val unique now).1
  unfolding put_with
  put_with-Keeps m i ks key val unique now short =
      entered-Keeps m i ks now _
        (λ checked n. buffer-Keeps n i ks key _ (checked-IsUser ks key short checked))

  pub delete-Keeps :
      (m : Manager E) (i : ℕ) (ks : Keyspace) (key : Bytes) (now : ℕ)
      → length key < 2 ^ 32
      → Keeps m i (delete m i ks key now).1
  unfolding delete
  delete-Keeps m i ks key now short =
      entered-Keeps m i ks now _
        (λ checked n. buffer-Keeps n i ks key _ (checked-IsUser ks key short checked))

  pub begin-Keeps : (m : Manager E) (ro : Bool) (now : ℕ) → Keeps m m.next (begin m ro now).1
  unfolding begin
  begin-Keeps m ro now =
      let t : Tx = record {
        id = m.next_txn_id;
        snapshot = m.commit_ts;
        commit_ts = 0;
        ro = ro;
        done = false;
        writes = [];
        marks = [];
        last = now;
        started = now;
      } in
      let k =
        set_tx-Keeps m m.next t
          (λ ts h f. record { began = h; writes_fit = ((tt, tt), tt); marks_fit = tt }) in
      if-Keeps m m.next m.closed _ _ (Keeps-refl m m.next) (
        if-Keeps m m.next (reached m.opt.max_open_txns (length m.live)) _ _ (Keeps-refl m m.next)
          (record {
            same_eng = refl;
            same_ts = refl;
            same_hooks = refl;
            same_opt = refl;
            next_grows = omega arith;
            others = k.others;
            own = k.own;
          }))
