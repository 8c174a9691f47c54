-- ===== src/Txn/Manager/Isolation.antt =====
-- `Commit` of the manager over an engine that keeps its promises: what the engine shows afterwards.
use mini_graph_db.Prelude.{
  ℕ, ◌^◌, ◌%◌, ◌<◌, true, false, Option, none, some, List, [], ◌∷◌, ◌≡◌, ◌≢◌, inl, inr, refl, arith,
  if◌then◌else◌, ltb, nat_eq, ◌==◌, ◌&&◌, ◌∙◌, sym, ap, All, Bool-cases,
}
use mini_graph_db.Prelude.Bytes.{Bytes, bytes_eq, bytes_beq, bytes_beq_iff, compare_bytes}
use mini_graph_db.Prelude.Int.{ℤ, pos}
use mini_graph_db.Storage.{Keyspace, Result, ok, err, ks_version, Error}
use mini_graph_db.Storage.WriteSet.{WriteSet, find, IsDistinct}
use mini_graph_db.Memory.Space.{at_least}
use mini_graph_db.Txn.Backend.{Backend}
use mini_graph_db.Txn.Version.{Oracle, meta_key, chain_prefix, encode_oracle, decode_oracle}
use mini_graph_db.Txn.Version.Codec.{decode_oracle-encode_oracle_wrap}
use mini_graph_db.Txn.Versions.{has_prefix, load_chain, WriteOp, read_at, validate}
use mini_graph_db.Txn.Versions.Scans.{IsOrdered-ext}
use mini_graph_db.Txn.Versions.Clean.{IsKept}
use mini_graph_db.Txn.Versions.PublishOp.{outcome}
use mini_graph_db.Txn.Versions.Apart.{IsApart, IsKept-IsApart, read_at-IsApart}
use mini_graph_db.Txn.Versions.PublishAll.{IsUser, AllFit, IsFit, Shows, publish-Shows}
use mini_graph_db.Txn.Manager.{read, write_versions}

-- The oracle's record lies before every chain.
module _ (js : Keyspace) (j i : Bytes) (same : (meta_key == i) ≡ true) where
  pub meta-below :
      (at_least (chain_prefix js j) i ≡ false) × (has_prefix (chain_prefix js j) i ≡ false)
  unfolding chain_prefix compare_bytes has_prefix
  meta-below = rw (← (bytes_beq_iff meta_key i).0 same) (refl, refl)

IsKept-later :
    (b : Backend) (t : b.Tx) (js : Keyspace) (j : Bytes) (ts cts : ℕ)
    → ts < cts
    → IsKept b t js j ts
    → IsKept b t js j cts
IsKept-later b t js j ts cts later kept = record {
  opened = kept.opened;
  head_fits = λ raw e. record {
    created = omega (arith, later, (kept.head_fits raw e).created);
    ended = omega (arith, later, (kept.head_fits raw e).ended);
    in_order = (kept.head_fits raw e).in_order;
  };
  chain = kept.chain;
  bare = kept.bare;
}

-- A write set of users' keys alone.
abbrev pub AllUser : WriteSet WriteOp → Type 0
AllUser w = All (λ x. All (λ y. IsUser x.0 y.0) x.1) w

module _ (b : Backend) where
  open b use {view, IsOpen, IsReady, Eng, Tx}

  -- Two transactions that see the same, but for the oracle's record.
  meta-IsApart :
      (t u : Tx) (js : Keyspace) (j : Bytes)
      → IsOpen t
      → IsOpen u
      → js ≢ ks_version
      → ((is : Keyspace) (i : Bytes)
          → (ks_version == is && meta_key == i) ≡ false
          → view u is i ≡ view t is i)
      → IsApart b t u js j
  unfolding load_chain
  meta-IsApart t u js j ot ou own same =
      let p = chain_prefix js j in
      let (l, el, ol, hl) = b.scan_view t ks_version p ot in
      let (m, em, om, hm) = b.scan_view u ks_version p ou in
      record {
        open_before = ot;
        open_after = ou;
        same_head = same js j (ground (arith, own));
        same_chain =
            rw
              (
                el,
                em,
                IsOrdered-ext m l om ol (λ i. elim (Bool-cases (meta_key == i)) [
                  | inl oracle ↦ ground (arith, hl i, hm i, (meta-below js j i oracle).0)
                  | inr other ↦
                      ground (arith, hl i, hm i, same ks_version i (ground (arith, other)))
                ]),
              )
              refl;
        same_records = λ i mine. elim (Bool-cases (meta_key == i)) [
          | inl oracle ↦ absurd (ground (arith, mine, (meta-below js j i oracle).1))
          | inr other ↦ same ks_version i (ground (arith, other))
        ];
      }

  -- The transaction that a reader begins.
  abbrev pub begun : (e : Eng) → IsReady e → Tx
  begun e r = (b.begin_view e r).0

  pub read-begun :
      (e : Eng) (r : IsReady e) (ks : Keyspace) (key : Bytes) (snap : ℕ)
      → read b e ks key snap ≡ read_at b (begun e r) ks key snap
  read-begun e r ks key snap = rw (b.begin_view e r).1 refl

  -- The records of every user key were written up to `ts`.
  abbrev pub AllKept : Tx → ℕ → Type 0
  AllKept t ts = (js : Keyspace) (j : Bytes) → IsUser js j → IsKept b t js j ts

  IsFit-space :
      (t : Tx) (ts : ℕ) (ks : Keyspace) (ops : List (Bytes × WriteOp))
      → AllKept t ts
      → All (λ y. IsUser ks y.0) ops
      → IsFit b ts t ks ops
  IsFit-space t ts ks [] kept user = tt
  IsFit-space t ts ks ((k, op) ∷ ops) kept user =
      ((user.0, kept ks k user.0), IsFit-space t ts ks ops kept user.1)

  AllFit-all : (t : Tx) (ts : ℕ) (w : WriteSet WriteOp) → AllKept t ts → AllUser w → AllFit b ts t w
  AllFit-all t ts [] kept user = tt
  AllFit-all t ts ((ks, ops) ∷ w) kept user =
      (IsFit-space t ts ks ops kept user.0, AllFit-all t ts w kept user.1)

  -- A key that a commit shows is in order at its timestamp.
  Shows-IsKept :
      (ts cts : ℕ) (t u : Tx) (js : Keyspace) (j : Bytes) (o : Option WriteOp)
      → ts < cts
      → IsKept b t js j ts
      → Shows b cts t u js j o
      → IsKept b u js j cts
  unfolding Shows
  Shows-IsKept ts cts t u js j none later kept apart =
      IsKept-IsApart b t u js j cts apart (IsKept-later b t js j ts cts later kept)
  Shows-IsKept ts cts t u js j (some op) later kept shows = shows.0

  -- What a snapshot reads after a commit at `cts` of the write set `w`.
  abbrev pub reading : ℕ → Option WriteOp → ℕ → Result Bytes → Result Bytes
  reading cts none snap before = before
  reading cts (some op) snap before = if ltb snap cts then before else outcome op

  Shows-reading :
      (cts : ℕ) (t u : Tx) (js : Keyspace) (j : Bytes) (o : Option WriteOp) (snap : ℕ)
      → Shows b cts t u js j o
      → read_at b u js j snap ≡ reading cts o snap (read_at b t js j snap)
  unfolding Shows
  Shows-reading cts t u js j none snap apart = read_at-IsApart b t u js j apart snap
  Shows-reading cts t u js j (some op) snap shows = shows.1 snap

  -- The oracle's record and the engine's commit change no user key.
  pub sealed-IsApart :
      (t u : Tx) (e : Eng) (r : IsReady e) (js : Keyspace) (j v : Bytes)
      → IsOpen t
      → js ≢ ks_version
      → ((is : Keyspace) (i : Bytes)
          → view u is i ≡ (if ks_version == is && meta_key == i then some v else view t is i))
      → ((is : Keyspace) (i : Bytes) → b.holds e is i ≡ view u is i)
      → IsApart b t (begun e r) js j
  sealed-IsApart t u e r js j v ot own put held =
      meta-IsApart t (begun e r) js j ot (b.begin_view e r).2 own
        (λ is i other. ground (arith, (b.begin_view e r).3 is i, held is i, put is i, other))

  -- The engine holds an oracle record with the commit timestamp `ts`.
  pub record Saved (e : Eng) (ts : ℕ) : Type 0 where
    pub raw : Bytes
    pub oracle : Oracle
    pub held : b.holds e ks_version meta_key ≡ some raw
    pub decodes : decode_oracle raw ≡ ok oracle
    pub clock : oracle.commit_ts ≡ ts

  pub oracle-Saved :
      (e : Eng) (o : Oracle)
      → o.commit_ts < 2 ^ 64
      → b.holds e ks_version meta_key ≡ some (encode_oracle o)
      → Saved e o.commit_ts
  oracle-Saved e o bounded held = record {
    raw = encode_oracle o;
    oracle = record { next_txn = o.next_txn % 2 ^ 64; commit_ts = o.commit_ts };
    held = held;
    decodes = decode_oracle-encode_oracle_wrap o bounded;
    clock = refl;
  }

  -- What a commit of the engine at `cts` with the write set `w` leaves.
  pub record Committed (e : Eng) (r : IsReady e) (cts : ℕ) (w : WriteSet WriteOp) (e' : Eng)
      : Type 0 where
    pub ready : IsReady e'
    pub kept : AllKept (begun e' ready) cts
    pub saved : Saved e' cts
    pub reads :
        (js : Keyspace) (j : Bytes) (snap : ℕ)
        → IsUser js j
        → read b e' js j snap ≡ reading cts (find js j w) snap (read b e js j snap)

  module _ (e : Eng) (r : IsReady e) (ts cts snap next_txn : ℕ) (w : WriteSet WriteOp)
      (later : ts < cts) (bounded : cts < 2 ^ 64) (kept : AllKept (begun e r) ts)
      (distinct : IsDistinct w) (user : AllUser w) where
    pub write_versions-Committed :
        validate b (begun e r) snap w ≡ ok tt
        → (q : ℤ × Eng) × (write_versions b e snap cts next_txn w ≡ ok q) × Committed e r cts w q.1
    unfolding write_versions bytes_beq
    write_versions-Committed valid =
        let t = begun e r in
        let (p, published, op, shows) =
          publish-Shows b cts ts later bounded w t (pos 0) (b.begin_view e r).2 distinct
            (AllFit-all t ts w kept user) in
        let (u, put, ou, seen) =
          b.put_view p.1 ks_version meta_key
            (encode_oracle (record { next_txn = next_txn; commit_ts = cts })) op in
        let (e', done, ready, held) = b.commit_view u ou in
        let apart : (js : Keyspace) (j : Bytes)
            → IsUser js j
            → IsApart b p.1 (begun e' ready) js j =
          λ js j x. sealed-IsApart p.1 u e' ready js j _ op x.own seen held in
        (
          (p.0, e'),
          rw ((b.begin_view e r).1, valid, published, put, done) refl,
          record {
            ready = ready;
            kept = λ js j x.
                IsKept-IsApart b p.1 (begun e' ready) js j cts (apart js j x)
                  (Shows-IsKept ts cts t p.1 js j (find js j w) later (kept js j x) (shows js j x));
            saved =
                oracle-Saved e' (record { next_txn = next_txn; commit_ts = cts }) bounded
                  (held ks_version meta_key ∙ seen ks_version meta_key);
            reads = λ js j s x.
                read-begun e' ready js j s
                ∙ read_at-IsApart b p.1 (begun e' ready) js j (apart js j x) s
                ∙ Shows-reading cts t p.1 js j (find js j w) s (shows js j x)
                ∙ ap (reading cts (find js j w) s) (sym (read-begun e r js j s));
          },
        )

  -- A conflict that validation finds ends the commit.
  pub write_versions-err :
      (e : Eng) (r : IsReady e) (snap cts next_txn : ℕ) (w : WriteSet WriteOp) (x : Error)
      → validate b (begun e r) snap w ≡ err x
      → write_versions b e snap cts next_txn w ≡ err x
  unfolding write_versions
  write_versions-err e r snap cts next_txn w x invalid = rw ((b.begin_view e r).1, invalid) refl
