-- ===== src/Txn/Versions/Apart.antt =====
-- What `publish` does to the keys that a write is not about: nothing.
use mini_graph_db.Prelude.{
  ℕ, ◌^◌, ◌<◌, true, false, Option, none, some, ◌≡◌, ◌≢◌, refl, arith, if◌then◌else◌, nat_eq, ◌==◌,
  ◌&&◌, ◌∙◌, ap, Bool-cases, inl, inr, sym, length,
}
use mini_graph_db.Prelude.Bytes.{Bytes, bytes_eq, bytes_beq_iff}
use mini_graph_db.Prelude.Int.{ℤ}
use mini_graph_db.Storage.{Keyspace, ok, ks_version}
use mini_graph_db.Memory.Space.{at_least}
use mini_graph_db.Txn.Backend.{Backend}
use mini_graph_db.Txn.Version.{decode_head, encode_head, encode_chain, chain_prefix, chain_key}
use mini_graph_db.Txn.Versions.{
  has_prefix, load_chain, WriteOp, Published, publish_op, read_head, head_of, archive, read_at,
  resolve,
}
use mini_graph_db.Txn.Versions.ChainKeys.{chain_key_inj}
use mini_graph_db.Txn.Versions.Scans.{All-lookup, collect-other, scan-put_above, scan-put_below}
use mini_graph_db.Txn.Versions.History.{archived}
use mini_graph_db.Txn.Versions.Clean.{IsKept}
use mini_graph_db.Txn.Versions.Archive.{load_chain_congr, unarchived}

module _ (b : Backend) (t u : b.Tx) (js : Keyspace) (j : Bytes) where
  open b use {view}

  -- Both transactions are open, and see the same head and the same chain of the key.
  pub record IsApart : Type 0 where
    pub open_before : b.IsOpen t
    pub open_after : b.IsOpen u
    pub same_head : view u js j ≡ view t js j
    pub same_chain : load_chain b u js j ≡ load_chain b t js j
    pub same_records :
        (i : Bytes)
        → has_prefix (chain_prefix js j) i ≡ true
        → view u ks_version i ≡ view t ks_version i

  -- Each snapshot reads the same.
  pub read_at-IsApart : IsApart → (snap : ℕ) → read_at b u js j snap ≡ read_at b t js j snap
  unfolding read_at read_head resolve head_of
  read_at-IsApart a snap = ground (
    arith,
    b.get_view t js j a.open_before,
    b.get_view u js j a.open_after,
    a.same_head,
    a.same_chain,
  )

  pub IsKept-IsApart : (ts : ℕ) → IsApart → IsKept b t js j ts → IsKept b u js j ts
  IsKept-IsApart ts a kept = record {
    opened = a.open_after;
    head_fits = λ raw e. kept.head_fits raw (sym a.same_head ∙ e);
    chain = λ raw i w e e' mine.
        kept.chain raw i w (sym a.same_head ∙ e) (sym (a.same_records i mine) ∙ e') mine;
    bare = λ i w e e'. elim (Bool-cases (has_prefix (chain_prefix js j) i)) [
      | inl mine ↦ kept.bare i w (sym a.same_head ∙ e) (sym (a.same_records i mine) ∙ e')
      | inr other ↦ other
    ];
  }

  -- A record of another chain.
  other_record :
      (name w : Bytes)
      → b.IsOpen t
      → b.IsOpen u
      → js ≢ ks_version
      → has_prefix (chain_prefix js j) name ≡ false
      → view t ks_version name ≡ none
      → ((is : Keyspace) (i : Bytes)
          → view u is i ≡ (if ks_version == is && name == i then some w else view t is i))
      → IsApart
  unfolding load_chain
  other_record name w ot ou own other new seen =
      let p = chain_prefix js j in
      let (l, el, ol, hl) = b.scan_view t ks_version p ot in
      let (m, em, om, hm) = b.scan_view u ks_version p ou in
      let put : (i : Bytes)
          → view u ks_version i ≡ (if name == i then some w else view t ks_version i) =
        λ i. ground (arith, seen ks_version i) in
      record {
        open_before = ot;
        open_after = ou;
        same_head = ground (arith, seen js j, own);
        same_chain = elim (Bool-cases (at_least p name)) [
          | inl above ↦
              rw
                (
                  el,
                  em,
                  scan-put_above p name w (view t ks_version) (view u ks_version) l m ol om hl hm
                      put new above,
                )
                (collect-other p name w l other above
                  (All-lookup (λ i x. at_least p i ≡ true) l ol (λ i x e. ground (arith, hl i, e))))
          | inr below ↦
              rw
                (
                  el,
                  em,
                  scan-put_below p name w (view t ks_version) (view u ks_version) l m ol om hl hm
                      put new below,
                )
                refl
        ];
        same_records = λ i mine.
            ground (arith, put i, bytes_beq_iff name i, ap (has_prefix p) {x = name} {y = i});
      }

  -- A head of another key.
  other_head :
      (ks : Keyspace) (key w : Bytes)
      → b.IsOpen t
      → b.IsOpen u
      → ks ≢ ks_version
      → (ks == js && key == j) ≡ false
      → ((is : Keyspace) (i : Bytes)
          → view u is i ≡ (if ks == is && key == i then some w else view t is i))
      → IsApart
  other_head ks key w ot ou own other seen =
      let same : (i : Bytes) → view u ks_version i ≡ view t ks_version i =
        λ i. ground (arith, seen ks_version i, own) in
      record {
        open_before = ot;
        open_after = ou;
        same_head = ground (arith, seen js j, other);
        same_chain = load_chain_congr b js j t u ot ou same;
        same_records = λ i mine. same i;
      }

module _ (b : Backend) (js : Keyspace) (j : Bytes) where
  pub IsApart-refl : (t : b.Tx) → b.IsOpen t → IsApart b t t js j
  IsApart-refl t o = record {
    open_before = o;
    open_after = o;
    same_head = refl;
    same_chain = refl;
    same_records = λ i mine. refl;
  }

  pub IsApart-trans : (t u v : b.Tx) → IsApart b t u js j → IsApart b u v js j → IsApart b t v js j
  IsApart-trans t u v x y = record {
    open_before = x.open_before;
    open_after = y.open_after;
    same_head = y.same_head ∙ x.same_head;
    same_chain = y.same_chain ∙ x.same_chain;
    same_records = λ i mine. y.same_records i mine ∙ x.same_records i mine;
  }

foreign :
    (ks js : Keyspace) (key j : Bytes) (c : ℕ)
    → length key < 2 ^ 32
    → length j < 2 ^ 32
    → (ks == js && key == j) ≡ false
    → has_prefix (chain_prefix js j) (chain_key ks key c) ≡ false
foreign ks js key j c short short' differ =
    elim (Bool-cases (has_prefix (chain_prefix js j) (chain_key ks key c))) [
      | inl mine ↦
          let same = chain_key_inj js ks j key c short' short mine in
          absurd (ground (arith, same.0, same.1, differ, bytes_beq_iff key j))
      | inr other ↦ other
    ]

module _ (b : Backend) (ks js : Keyspace) (key j : Bytes) (own : ks ≢ ks_version)
    (own' : js ≢ ks_version) (short : length key < 2 ^ 32) (short' : length j < 2 ^ 32)
    (differ : (ks == js && key == j) ≡ false) (t : b.Tx) (ts cts : ℕ) (op : WriteOp) (delta : ℤ)
    (kept : IsKept b t ks key ts) (later : ts < cts) (bounded : cts < 2 ^ 64) where
  open b use {view}

  apart_bare :
      (p : Published b.Tx)
      → view t ks key ≡ none
      → publish_op b t cts ks key op delta ≡ ok p
      → IsApart b t p.1 js j
  unfolding publish_op read_head head_of
  apart_bare p at done =
      let (u, put, ou, seen) = b.put_view t ks key (encode_head cts 0 op.val) kept.opened in
      elim (Bool-cases op.del) [
        | inl del ↦
            let same : p.1 ≡ t = ground (arith, b.get_view t ks key kept.opened, at, del, done) in
            rw same (IsApart-refl b js j t kept.opened)
        | inr written ↦
            let same : p.1 ≡ u =
              ground (arith, b.get_view t ks key kept.opened, at, put, written, done) in
            rw same (other_head b t u js j ks key _ kept.opened ou own differ seen)
      ]

  module _ (raw : Bytes) (at : view t ks key ≡ some raw) where
    apart_delete :
        (p : Published b.Tx)
        → op.del ≡ true
        → publish_op b t cts ks key op delta ≡ ok p
        → IsApart b t p.1 js j
    unfolding publish_op read_head head_of
    apart_delete p del done =
        let gone = encode_head (decode_head raw).create cts (decode_head raw).payload in
        let (u, put, ou, seen) = b.put_view t ks key gone kept.opened in
        elim (Bool-cases ((decode_head raw).delete == 0)) [
          | inl live ↦
              let same : p.1 ≡ u =
                ground (arith, b.get_view t ks key kept.opened, at, put, del, live, done) in
              rw same (other_head b t u js j ks key gone kept.opened ou own differ seen)
          | inr dead ↦
              let same : p.1 ≡ t =
                ground (arith, b.get_view t ks key kept.opened, at, del, dead, done) in
              rw same (IsApart-refl b js j t kept.opened)
        ]

    apart_replace :
        (p : Published b.Tx)
        → op.del ≡ false
        → publish_op b t cts ks key op delta ≡ ok p
        → IsApart b t p.1 js j
    unfolding publish_op read_head head_of archive
    apart_replace p written done =
        let name = chain_key ks key (decode_head raw).create in
        let old = encode_chain (archived cts (decode_head raw)).delete (decode_head raw).payload in
        let (u, put, ou, seen) = b.put_view t ks_version name old kept.opened in
        let (v, put', ov, seen') = b.put_view u ks key (encode_head cts 0 op.val) ou in
        let same : p.1 ≡ v =
          ground (arith, b.get_view t ks key kept.opened, at, put, put', written, done) in
        let far = foreign ks js key j (decode_head raw).create short short' differ in
        rw same (
          IsApart-trans b js j t u v
            (other_record b t u js j name old kept.opened ou own' far
              (unarchived b ks key t ts cts raw kept at later bounded) seen)
            (other_head b u v js j ks key (encode_head cts 0 op.val) ou ov own differ seen'))

  -- Publishing a write to one key leaves every other key as it was: at each snapshot the same is
  -- read of it, and its records stay in order.
  pub publish_op-IsApart :
      (p : Published b.Tx) → publish_op b t cts ks key op delta ≡ ok p → IsApart b t p.1 js j
  publish_op-IsApart p done = by_head (view t ks key) refl
    where
      by_head : (o : Option Bytes) → view t ks key ≡ o → IsApart b t p.1 js j
      by_head none at = apart_bare p at done
      by_head (some raw) at = elim (Bool-cases op.del) [
        | inl del ↦ apart_delete raw at p del done
        | inr written ↦ apart_replace raw at p written done
      ]
