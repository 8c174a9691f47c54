-- ===== src/Txn/Versions/Kept.antt =====
-- The writes of `publish` keep a key's records in order.
use mini_graph_db.Prelude.{
  ℕ, ◌^◌, ◌<◌, ◌≤◌, true, false, none, some, ◌≡◌, refl, arith, if◌then◌else◌, nat_eq, ◌==◌, ◌∙◌,
  Bool-cases, inl, inr, sym,
}
use mini_graph_db.Prelude.Bytes.{Bytes, bytes_eq, bytes_beq_iff}
use mini_graph_db.Storage.{Keyspace, ks_version}
use mini_graph_db.Txn.Backend.{Backend}
use mini_graph_db.Txn.Version.{decode_head, encode_head, encode_chain, chain_key}
use mini_graph_db.Txn.Version.Codec.{decode_chain-encode_chain, decode_head-encode_head}
use mini_graph_db.Txn.Versions.History.{HeadFits, archived, fresh, tombstoned, IsBehind-archived}
use mini_graph_db.Txn.Versions.Clean.{IsRecordOf, IsKept}

IsRecordOf-later :
    (ks : Keyspace) (key : Bytes) (m n : ℕ) (j w : Bytes)
    → m ≤ n
    → IsRecordOf ks key m j w
    → IsRecordOf ks key n j w
IsRecordOf-later ks key m n j w h r = record {
  create = r.create;
  named = r.named;
  older = omega (arith, r.older);
  fits = r.fits;
  version = r.version;
  read = r.read;
  superseded = r.superseded;
  by_then = omega (arith, r.by_then);
}

module _ (b : Backend) (ks : Keyspace) (key : Bytes) (t u : b.Tx) (ts cts : ℕ)
    (kept : IsKept b t ks key ts) (later : ts < cts) (bounded : cts < 2 ^ 64)
    (opened : b.IsOpen u) where
  open b use {view}

  written_head :
      (h : ℕ) (create : ℕ) (val raw : Bytes)
      → create < 2 ^ 64
      → h < 2 ^ 64
      → view u ks key ≡ some (encode_head create h val)
      → view u ks key ≡ some raw
      → decode_head raw ≡ record { create = create; delete = h; payload = val; legacy = false }
  written_head h create val raw hc hh now e =
      let same : encode_head create h val ≡ raw = ground (arith, e, now) in
      rw (← same) (decode_head-encode_head create h val hc hh)

  -- A put of a key that has a head.
  pub put-IsKept :
      (raw val : Bytes)
      → view t ks key ≡ some raw
      → view u ks key ≡ some (encode_head cts 0 val)
      → ((j : Bytes)
          → view u ks_version j ≡ (
              if chain_key ks key (decode_head raw).create == j
              then some
                  (encode_chain (archived cts (decode_head raw)).delete (decode_head raw).payload)
              else view t ks_version j))
      → IsKept b u ks key cts
  put-IsKept raw val at now written = record {
    opened = opened;
    head_fits = λ raw' e.
        rw (shown raw' e)
          (record { created = omega arith; ended = omega arith; in_order = inl refl });
    chain = λ raw' j w e e' mine.
        rw (shown raw' e) (elim (Bool-cases (chain_key ks key (decode_head raw).create == j)) [
          | inl same ↦ archived_record j w same (ground (arith, e', written j, same))
          | inr other ↦
              IsRecordOf-later ks key (decode_head raw).create cts j w
                (omega (arith, later, (kept.head_fits raw at).created))
                (kept.chain raw j w at (ground (arith, e', written j, other)) mine)
        ]);
    bare = λ j w e e'. absurd (ground (arith, e, now));
  }
    where
      shown : (raw' : Bytes) → view u ks key ≡ some raw' → decode_head raw' ≡ fresh cts val
      shown raw' e = written_head 0 cts val raw' bounded (omega arith) now e

      archived_record :
          (j w : Bytes)
          → (chain_key ks key (decode_head raw).create == j) ≡ true
          → w ≡ encode_chain (archived cts (decode_head raw)).delete (decode_head raw).payload
          → IsRecordOf ks key cts j w
      archived_record j w same eq =
          let behind = IsBehind-archived ts cts (decode_head raw) (kept.head_fits raw at) later in
          record {
            create = (decode_head raw).create;
            named = sym ((bytes_beq_iff (chain_key ks key (decode_head raw).create) j).0 same);
            older = behind.older;
            fits = omega (arith, behind.older, bounded);
            version = record (archived cts (decode_head raw)) { create = 0 };
            read = rw eq (
                decode_chain-encode_chain (archived cts (decode_head raw)).delete
                  (decode_head raw).payload (omega (arith, behind.by_then, bounded)));
            superseded = behind.superseded;
            by_then = behind.by_then;
          }

  -- A put of a key that has none.
  pub first_put-IsKept :
      (val : Bytes)
      → view t ks key ≡ none
      → view u ks key ≡ some (encode_head cts 0 val)
      → ((j : Bytes) → view u ks_version j ≡ view t ks_version j)
      → IsKept b u ks key cts
  first_put-IsKept val at now same = record {
    opened = opened;
    head_fits = λ raw' e.
        rw (written_head 0 cts val raw' bounded (omega arith) now e)
          (record { created = omega arith; ended = omega arith; in_order = inl refl });
    chain =
        λ raw' j w e e' mine. absurd (ground (arith, mine, kept.bare j w at (sym (same j) ∙ e')));
    bare = λ j w e e'. absurd (ground (arith, e, now));
  }

  -- A delete of a live key.
  pub delete-IsKept :
      (raw : Bytes)
      → view t ks key ≡ some raw
      → view u ks key ≡ some (encode_head (decode_head raw).create cts (decode_head raw).payload)
      → ((j : Bytes) → view u ks_version j ≡ view t ks_version j)
      → IsKept b u ks key cts
  delete-IsKept raw at now same = record {
    opened = opened;
    head_fits = λ raw' e. rw (shown raw' e) (record {
      created = omega (arith, old.created, later);
      ended = omega arith;
      in_order = inr (omega (arith, old.created, later));
    });
    chain =
        λ raw' j w e e' mine. rw (shown raw' e) (kept.chain raw j w at (sym (same j) ∙ e') mine);
    bare = λ j w e e'. absurd (ground (arith, e, now));
  }
    where
      old : HeadFits ts (decode_head raw)
      old = kept.head_fits raw at

      shown :
          (raw' : Bytes)
          → view u ks key ≡ some raw'
          → decode_head raw' ≡ tombstoned cts (decode_head raw)
      shown raw' e =
          written_head cts (decode_head raw).create (decode_head raw).payload raw'
            (omega (arith, old.created, later, bounded)) bounded now e

  -- No write.
  pub unwritten-IsKept :
      ((js : Keyspace) (j : Bytes) → view u js j ≡ view t js j) → IsKept b u ks key cts
  unwritten-IsKept same = record {
    opened = opened;
    head_fits = λ raw e.
        let old = kept.head_fits raw (sym (same ks key) ∙ e) in
        record {
          created = omega (arith, old.created, later);
          ended = omega (arith, old.ended, later);
          in_order = old.in_order;
        };
    chain = λ raw j w e e' mine.
        kept.chain raw j w (sym (same ks key) ∙ e) (sym (same ks_version j) ∙ e') mine;
    bare = λ j w e e'. kept.bare j w (sym (same ks key) ∙ e) (sym (same ks_version j) ∙ e');
  }
