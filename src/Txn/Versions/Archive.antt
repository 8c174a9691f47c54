-- ===== src/Txn/Versions/Archive.antt =====
-- `archive`: the head that a new one replaces becomes the newest record of the chain.
use mini_graph_db.Prelude.{
  ℕ, ◌^◌, ◌<◌, true, Option, none, some, List, [], ◌∷◌, ◌++◌, ◌≡◌, refl, arith, All, if◌then◌else◌,
  nat_eq, ◌==◌, ◌∙◌, ap, sym, drop, length,
}
use mini_graph_db.Prelude.Bytes.{Bytes, bytes_eq, uint64, compare_bytes}
use mini_graph_db.Prelude.Assoc.{lookup}
use mini_graph_db.Storage.{Keyspace, ok, ks_version}
use mini_graph_db.Memory.Space.{at_least}
use mini_graph_db.Memory.Snapshot.{Item}
use mini_graph_db.Memory.Snapshot.Items.{IsOrdered}
use mini_graph_db.Memory.Space.Keys.{IsBelow}
use mini_graph_db.Txn.Backend.{Backend}
use mini_graph_db.Txn.Version.{Head, decode_head, encode_chain, chain_prefix, chain_key}
use mini_graph_db.Txn.Version.Codec.{decode_chain-encode_chain}
use mini_graph_db.Txn.Versions.{has_prefix, is_chain_of, load_chain}
use mini_graph_db.Txn.Versions.ChainKeys.{
  is_chain_of-chain_key, has_prefix-chain_key, create_of_chain_key, chain_key_mono,
}
use mini_graph_db.Txn.Versions.Scans.{All-lookup, collect-newest, scan-put_above, IsOrdered-ext}
use mini_graph_db.Txn.Versions.History.{HeadFits, archived, IsBehind-archived}
use mini_graph_db.Txn.Versions.Clean.{IsKept}

pub at_least-has_prefix : (p k : Bytes) → has_prefix p k ≡ true → at_least p k ≡ true
unfolding has_prefix compare_bytes
at_least-has_prefix [] [] h = refl
at_least-has_prefix [] (y ∷ k) h = refl
at_least-has_prefix (x ∷ p) [] h = cc
at_least-has_prefix (x ∷ p) (y ∷ k) h = ground (arith, at_least-has_prefix p k)

module _ (b : Backend) (ks : Keyspace) (key : Bytes) where
  open b use {view, IsOpen, Tx}

  -- Transactions that see the same of keyspace V read the same chain.
  pub load_chain_congr :
      (t u : Tx)
      → IsOpen t
      → IsOpen u
      → ((j : Bytes) → view u ks_version j ≡ view t ks_version j)
      → load_chain b u ks key ≡ load_chain b t ks key
  unfolding load_chain
  load_chain_congr t u ot ou same =
      let (l, el, ol, hl) = b.scan_view t ks_version (chain_prefix ks key) ot in
      let (m, em, om, hm) = b.scan_view u ks_version (chain_prefix ks key) ou in
      let lists : m ≡ l = IsOrdered-ext m l om ol (λ j. ground (arith, hl j, hm j, same j)) in
      rw (el, em, lists) refl

  module _ (t : Tx) (ts cts : ℕ) (raw : Bytes) (kept : IsKept b t ks key ts)
      (at : view t ks key ≡ some raw) (later : ts < cts) (bounded : cts < 2 ^ 64) where
    fits : HeadFits ts (decode_head raw)
    fits = kept.head_fits raw at

    abbrev name : Bytes
    name = chain_key ks key (decode_head raw).create

    -- The head's version has no record yet.
    pub unarchived : view t ks_version name ≡ none
    unarchived = go (view t ks_version name) refl
      where
        go : (o : Option Bytes) → view t ks_version name ≡ o → o ≡ none
        go none e = refl
        go (some w) e =
            let r =
              kept.chain raw name w at e (has_prefix-chain_key ks key (decode_head raw).create) in
            let same : (decode_head raw).create ≡ r.create =
              sym
                (create_of_chain_key ks key (decode_head raw).create (omega (arith, fits.created)))
              ∙ ap (λ x. uint64 (drop (length (chain_prefix ks key)) x)) r.named
              ∙ create_of_chain_key ks key r.create r.fits in
            absurd (omega (arith, same, r.older))

    abbrev kept_record : Bytes
    kept_record = encode_chain (archived cts (decode_head raw)).delete (decode_head raw).payload

    -- The items of the chain stand below the new record.
    All-IsBelow-name :
        (l : List Item)
        → IsOrdered l
        → ((j : Bytes)
            → lookup j l ≡ (if at_least (chain_prefix ks key) j then view t ks_version j else none))
        → All
            (λ x.
              (at_least (chain_prefix ks key) x.0 ≡ true)
              × (has_prefix (chain_prefix ks key) x.0 ≡ true
                  → (is_chain_of (chain_prefix ks key) x.0 ≡ true) × IsBelow x.0 name))
            l
    All-IsBelow-name l ordered holds =
        All-lookup
          (λ j w.
            (at_least (chain_prefix ks key) j ≡ true)
            × (has_prefix (chain_prefix ks key) j ≡ true
                → (is_chain_of (chain_prefix ks key) j ≡ true) × IsBelow j name))
          l ordered
          λ j w e. (
            ground (arith, holds j, e),
            λ mine.
                let r = kept.chain raw j w at (ground (arith, holds j, e)) mine in
                (
                  ap (is_chain_of (chain_prefix ks key)) r.named
                      ∙ is_chain_of-chain_key ks key r.create,
                  rw r.named (
                      chain_key_mono ks key r.create (decode_head raw).create r.older
                        (omega (arith, fits.created))),
                ),
          )

    -- The transaction after `archive`, which sees one record more.
    pub load_chain-archived :
        (u : Tx) (chain : List Head)
        → IsOpen u
        → ((j : Bytes)
            → view u ks_version j ≡ (if name == j then some kept_record else view t ks_version j))
        → load_chain b t ks key ≡ ok chain
        → load_chain b u ks key ≡ ok (chain ++ archived cts (decode_head raw) ∷ [])
    unfolding load_chain
    load_chain-archived u chain ou written loaded =
        let p = chain_prefix ks key in
        let (l, el, ol, hl) = b.scan_view t ks_version p kept.opened in
        let (m, em, om, hm) = b.scan_view u ks_version p ou in
        let lists =
          scan-put_above p name kept_record (view t ks_version) (view u ks_version) l m ol om hl hm
            written unarchived
            (at_least-has_prefix p name (has_prefix-chain_key ks key (decode_head raw).create)) in
        let dec =
          decode_chain-encode_chain (archived cts (decode_head raw)).delete
            (decode_head raw).payload
            (omega (arith, (IsBehind-archived ts cts (decode_head raw) fits later).by_then)) in
        let newest =
          collect-newest p name kept_record _ l chain
            (is_chain_of-chain_key ks key (decode_head raw).create) dec (All-IsBelow-name l ol hl)
            (ground (arith, el, loaded)) in
        rw
          (
            em,
            lists,
            newest,
            create_of_chain_key ks key (decode_head raw).create (omega (arith, fits.created)),
          )
          refl
