-- ===== src/Txn/Versions/PublishOp.antt =====
-- One write of `publish`: what each snapshot reads of its key before and after it.
use mini_graph_db.Prelude.{
  ℕ, ◌^◌, ◌<◌, true, false, Option, none, some, List, [], ◌∷◌, ◌++◌, ◌≡◌, ◌≢◌, refl, arith, All,
  if◌then◌else◌, ltb, nat_eq, ◌==◌, ◌∙◌, Bool-cases, inl, inr,
}
use mini_graph_db.Prelude.Bytes.{Bytes, bytes_eq, bytes_beq_iff}
use mini_graph_db.Prelude.Int.{ℤ, inc, dec}
use mini_graph_db.Storage.{Keyspace, Result, ok, err, ks_version, err_not_found}
use mini_graph_db.Memory.Snapshot.{Item}
use mini_graph_db.Txn.Backend.{Backend}
use mini_graph_db.Txn.Version.{decode_head, encode_head, encode_chain, chain_prefix, chain_key}
use mini_graph_db.Txn.Version.Codec.{decode_head-encode_head}
use mini_graph_db.Txn.Versions.{
  has_prefix, collect, load_chain, WriteOp, Published, publish_op, read_head, head_of, archive,
  read_at,
}
use mini_graph_db.Txn.Versions.Scans.{All-lookup, collect-stop}
use mini_graph_db.Txn.Versions.History.{
  HeadFits, at_snapshot-put, at_snapshot-tombstoned, at_snapshot-first, at_snapshot-dead, archived,
}
use mini_graph_db.Txn.Versions.Clean.{
  IsKept, load_chain-IsBehind, read_at-at_snapshot, read_at-none,
}
use mini_graph_db.Txn.Versions.Archive.{load_chain_congr, load_chain-archived}
use mini_graph_db.Txn.Versions.Kept.{put-IsKept, first_put-IsKept, delete-IsKept, unwritten-IsKept}

-- What a reader finds once the write is published.
pub outcome : WriteOp → Result Bytes
outcome op = if op.del then err err_not_found else ok op.val

collect-none :
    (p : Bytes) (l : List Item) → All (λ x. has_prefix p x.0 ≡ false) l → collect p l ≡ ok []
unfolding collect
collect-none p [] all = refl
collect-none p ((k, v) ∷ l) all = collect-stop p k v l (ground (arith, all.0))

module _ (b : Backend) (ks : Keyspace) (key : Bytes) (t : b.Tx) (cts : ℕ) (op : WriteOp)
    (delta : ℤ) where
  -- The write is done, the key's records stay in order, a snapshot before `cts` reads what it read,
  -- and a later one reads the write.
  unfoldable pub IsPublished : Type 0
  IsPublished =
      (p : Published b.Tx) × (publish_op b t cts ks key op delta ≡ ok p)
      × IsKept b p.1 ks key cts
      × ((snap : ℕ)
          → read_at b p.1 ks key snap
            ≡ (if ltb snap cts then read_at b t ks key snap else outcome op))

module _ (b : Backend) (ks : Keyspace) (key : Bytes) (own : ks ≢ ks_version) (t : b.Tx) (ts cts : ℕ)
    (op : WriteOp) (delta : ℤ) (kept : IsKept b t ks key ts) (later : ts < cts)
    (bounded : cts < 2 ^ 64) where
  open b use {view}

  load_chain-none : view t ks key ≡ none → load_chain b t ks key ≡ ok []
  unfolding load_chain
  load_chain-none at =
      let (l, scanned, ordered, holds) =
        b.scan_view t ks_version (chain_prefix ks key) kept.opened in
      rw scanned (
        collect-none (chain_prefix ks key) l (
          All-lookup (λ j w. has_prefix (chain_prefix ks key) j ≡ false) l ordered
            (λ j w e. kept.bare j w at (ground (arith, holds j, e)))))

  first_put : view t ks key ≡ none → op.del ≡ false → IsPublished b ks key t cts op delta
  unfolding publish_op read_head head_of outcome IsPublished
  first_put at del =
      let (u, put, ou, seen) = b.put_view t ks key (encode_head cts 0 op.val) kept.opened in
      let now : view u ks key ≡ some (encode_head cts 0 op.val) =
        ground (arith, seen ks key, bytes_beq_iff key key) in
      let same : (j : Bytes) → view u ks_version j ≡ view t ks_version j =
        λ j. ground (arith, seen ks_version j, own) in
      (
        (inc delta, u),
        ground (arith, b.get_view t ks key kept.opened, at, put, del),
        first_put-IsKept b ks key t u ts cts kept later bounded ou op.val at now same,
        λ snap.
            rw
              (
                read_at-at_snapshot b u ks key snap (encode_head cts 0 op.val) [] ou now
                    (load_chain_congr b ks key t u kept.opened ou same ∙ load_chain-none at),
                decode_head-encode_head cts 0 op.val bounded (omega arith),
                at_snapshot-first cts snap op.val,
                read_at-none b t ks key snap kept.opened at,
              )
              (ground (arith, del)),
      )

  no_delete : view t ks key ≡ none → op.del ≡ true → IsPublished b ks key t cts op delta
  unfolding publish_op read_head head_of outcome IsPublished
  no_delete at del = (
    (delta, t),
    ground (arith, b.get_view t ks key kept.opened, at, del),
    unwritten-IsKept b ks key t t ts cts kept later bounded kept.opened (λ js j. refl),
    λ snap. ground (arith, read_at-none b t ks key snap kept.opened at, del),
  )

  module _ (raw : Bytes) (at : view t ks key ≡ some raw) where
    fits : HeadFits ts (decode_head raw)
    fits = kept.head_fits raw at

    dead_delete :
        op.del ≡ true
        → ((decode_head raw).delete == 0) ≡ false
        → IsPublished b ks key t cts op delta
    unfolding publish_op read_head head_of outcome IsPublished
    dead_delete del dead = (
      (delta, t),
      ground (arith, b.get_view t ks key kept.opened, at, del, dead),
      unwritten-IsKept b ks key t t ts cts kept later bounded kept.opened (λ js j. refl),
      λ snap.
          let (chain, loaded, behind) = load_chain-IsBehind b t ks key ts raw kept at in
          rw (read_at-at_snapshot b t ks key snap raw chain kept.opened at loaded) (
            ground
              (arith, del, at_snapshot-dead ts cts snap (decode_head raw) chain fits later dead)),
    )

    live_delete :
        op.del ≡ true → ((decode_head raw).delete == 0) ≡ true → IsPublished b ks key t cts op delta
    unfolding publish_op read_head head_of outcome IsPublished
    live_delete del live =
        let gone = encode_head (decode_head raw).create cts (decode_head raw).payload in
        let (u, put, ou, seen) = b.put_view t ks key gone kept.opened in
        let now : view u ks key ≡ some gone = ground (arith, seen ks key, bytes_beq_iff key key) in
        let same : (j : Bytes) → view u ks_version j ≡ view t ks_version j =
          λ j. ground (arith, seen ks_version j, own) in
        let (chain, loaded, behind) = load_chain-IsBehind b t ks key ts raw kept at in
        (
          (dec delta, u),
          ground (arith, b.get_view t ks key kept.opened, at, put, del, live),
          delete-IsKept b ks key t u ts cts kept later bounded ou raw at now same,
          λ snap.
              rw
                (
                  read_at-at_snapshot b u ks key snap gone chain ou now
                      (load_chain_congr b ks key t u kept.opened ou same ∙ loaded),
                  decode_head-encode_head (decode_head raw).create cts (decode_head raw).payload
                      (omega (arith, fits.created)) bounded,
                  at_snapshot-tombstoned ts cts snap (decode_head raw) chain fits later
                      (ground (arith, live)),
                  read_at-at_snapshot b t ks key snap raw chain kept.opened at loaded,
                )
                (ground (arith, del)),
        )

    replace : op.del ≡ false → IsPublished b ks key t cts op delta
    unfolding publish_op read_head head_of archive outcome IsPublished
    replace del =
        let name = chain_key ks key (decode_head raw).create in
        let old = encode_chain (archived cts (decode_head raw)).delete (decode_head raw).payload in
        let (u, put, ou, seen) = b.put_view t ks_version name old kept.opened in
        let (v, put', ov, seen') = b.put_view u ks key (encode_head cts 0 op.val) ou in
        let now : view v ks key ≡ some (encode_head cts 0 op.val) =
          ground (arith, seen' ks key, bytes_beq_iff key key) in
        let written : (j : Bytes)
            → view v ks_version j ≡ (if name == j then some old else view t ks_version j) =
          λ j. ground (arith, seen ks_version j, seen' ks_version j, own) in
        let (chain, loaded, behind) = load_chain-IsBehind b t ks key ts raw kept at in
        (
          (if (decode_head raw).delete == 0 then delta else inc delta, v),
          ground (arith, b.get_view t ks key kept.opened, at, put, put', del),
          put-IsKept b ks key t v ts cts kept later bounded ov raw op.val at now written,
          λ snap.
              rw
                (
                  read_at-at_snapshot b v ks key snap (encode_head cts 0 op.val)
                      (chain ++ archived cts (decode_head raw) ∷ []) ov now
                      (load_chain-archived b ks key t ts cts raw kept at later bounded v chain ov
                        written loaded),
                  decode_head-encode_head cts 0 op.val bounded (omega arith),
                  at_snapshot-put ts cts snap (decode_head raw) chain fits later op.val behind,
                  read_at-at_snapshot b t ks key snap raw chain kept.opened at loaded,
                )
                (ground (arith, del)),
        )

  -- Publishing one write at `cts`, on a key whose records were written up to an earlier `ts`, meets
  -- no error and keeps the key's records in order. A snapshot before `cts` reads of the key what it
  -- read before; from `cts` on a snapshot reads the write, a deleted key being not found.
  pub publish_op-IsPublished : IsPublished b ks key t cts op delta
  publish_op-IsPublished = by_head (view t ks key) refl
    where
      replaced : (raw : Bytes) → view t ks key ≡ some raw → IsPublished b ks key t cts op delta
      replaced raw at = elim (Bool-cases op.del) [
        | inl del ↦ elim (Bool-cases ((decode_head raw).delete == 0)) [
          | inl live ↦ live_delete raw at del live
          | inr dead ↦ dead_delete raw at del dead
        ]
        | inr put ↦ replace raw at put
      ]

      by_head : (o : Option Bytes) → view t ks key ≡ o → IsPublished b ks key t cts op delta
      by_head none at = elim (Bool-cases op.del) [
        | inl del ↦ no_delete at del
        | inr put ↦ first_put at put
      ]
      by_head (some raw) at = replaced raw at
