-- ===== src/Txn/Versions/Clean.antt =====
-- One key in an engine transaction: what holds of its head and its chain records between writes of
-- the manager, and what `readAt` makes of them.
use mini_graph_db.Prelude.{
  ℕ, ◌^◌, ◌<◌, ◌≤◌, true, false, none, some, List, [], ◌∷◌, ◌≡◌, ◌≢◌, refl, arith, All, nat_eq, ◌∙◌,
  ap, Bool-cases, inl, inr,
}
use mini_graph_db.Prelude.Bytes.{Bytes, bytes_eq}
use mini_graph_db.Storage.{Keyspace, ok, err, err_not_found, ks_version}
use mini_graph_db.Memory.Snapshot.{Item}
use mini_graph_db.Memory.Engine.{found}
use mini_graph_db.Txn.Backend.{Backend}
use mini_graph_db.Txn.Version.{Head, decode_head, decode_chain, chain_prefix, chain_key}
use mini_graph_db.Txn.Versions.{
  has_prefix, is_chain_of, collect, visible_payload, read_head, load_chain, resolve, read_at,
  head_of,
}
use mini_graph_db.Txn.Versions.ChainKeys.{is_chain_of-chain_key, create_of_chain_key}
use mini_graph_db.Txn.Versions.Scans.{All-lookup, collect-stop, collect-step}
use mini_graph_db.Txn.Versions.History.{at_snapshot, HeadFits, IsBehind}

-- A record of keyspace V that is a version behind a head created at `m`.
pub record IsRecordOf (ks : Keyspace) (key : Bytes) (m : ℕ) (j w : Bytes) : Type 0 where
  pub create : ℕ
  pub named : j ≡ chain_key ks key create
  pub older : create < m
  pub fits : create < 2 ^ 64
  pub version : Head
  pub read : decode_chain w ≡ ok version
  pub superseded : version.delete ≢ 0
  pub by_then : version.delete ≤ m

module _ (ks : Keyspace) (key : Bytes) where
  abbrev pub IsOwn : ℕ → Bytes → Bytes → Type 0
  IsOwn m j w = has_prefix (chain_prefix ks key) j ≡ true → IsRecordOf ks key m j w

  -- Reading the chain meets no error, and gives versions behind the head.
  collect-IsBehind :
      (m : ℕ) (l : List Item)
      → All (λ x. IsOwn m x.0 x.1) l
      → (chain : List Head) × (collect (chain_prefix ks key) l ≡ ok chain) × All (IsBehind m) chain
  collect-IsBehind m [] all = ([], unfold collect in refl, tt)
  collect-IsBehind m ((j, w) ∷ l) all = elim (Bool-cases (has_prefix (chain_prefix ks key) j)) [
    | inl mine ↦
        let r = all.0 mine in
        let p = collect-IsBehind m l all.1 in
        (
          _,
          collect-step (chain_prefix ks key) j w l r.version p.0
              (ap (is_chain_of (chain_prefix ks key)) r.named
                ∙ is_chain_of-chain_key ks key r.create)
              r.read p.1,
          (
            record {
              older = rw r.named (rw (create_of_chain_key ks key r.create r.fits) r.older);
              superseded = r.superseded;
              by_then = r.by_then;
            },
            p.2,
          ),
        )
    | inr other ↦ ([], collect-stop (chain_prefix ks key) j w l (ground arith), tt)
  ]

module _ (b : Backend) (t : b.Tx) (ks : Keyspace) (key : Bytes) where
  open b use {view, IsOpen}

  -- The key's head was written by a commit up to `ts`, and its chain stands behind the head.
  pub record IsKept (ts : ℕ) : Type 0 where
    pub opened : IsOpen t
    pub head_fits : (raw : Bytes) → view t ks key ≡ some raw → HeadFits ts (decode_head raw)
    pub chain :
        (raw j w : Bytes)
        → view t ks key ≡ some raw
        → view t ks_version j ≡ some w
        → IsOwn ks key (decode_head raw).create j w
    pub bare :
        (j w : Bytes)
        → view t ks key ≡ none
        → view t ks_version j ≡ some w
        → has_prefix (chain_prefix ks key) j ≡ false

  pub load_chain-IsBehind :
      (ts : ℕ) (raw : Bytes)
      → IsKept ts
      → view t ks key ≡ some raw
      → (chain : List Head) × (load_chain b t ks key ≡ ok chain)
        × All (IsBehind (decode_head raw).create) chain
  unfolding load_chain
  load_chain-IsBehind ts raw kept at =
      let (l, scanned, ordered, holds) =
        b.scan_view t ks_version (chain_prefix ks key) kept.opened in
      let all =
        All-lookup (IsOwn ks key (decode_head raw).create) l ordered
          (λ j w e. kept.chain raw j w at (ground (arith, holds j, e))) in
      let p = collect-IsBehind ks key (decode_head raw).create l all in (p.0, rw scanned p.1, p.2)

  -- `readAt` gives what the head and the chain say.
  pub read_at-at_snapshot :
      (snap : ℕ) (raw : Bytes) (chain : List Head)
      → IsOpen t
      → view t ks key ≡ some raw
      → load_chain b t ks key ≡ ok chain
      → read_at b t ks key snap ≡ found (at_snapshot (some (decode_head raw)) chain snap)
  unfolding read_at read_head resolve head_of visible_payload
  read_at-at_snapshot snap raw chain o at loaded = ground (arith, b.get_view t ks key o, at, loaded)

  pub read_at-none :
      (snap : ℕ) → IsOpen t → view t ks key ≡ none → read_at b t ks key snap ≡ err err_not_found
  unfolding read_at read_head resolve head_of
  read_at-none snap o at = ground (arith, b.get_view t ks key o, at)
