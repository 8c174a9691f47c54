-- ===== src/Txn/Open/Fresh.antt =====
-- txn/manager.go and store.go: `Open` on an engine that holds nothing.
use mini_graph_db.Prelude.{false, none, List, [], ◌∷◌, ◌≡◌, ◌≢◌, refl, arith, nat_eq, ◌∙◌, All}
use mini_graph_db.Prelude.Bytes.{Bytes, bytes_eq, bytes_beq}
use mini_graph_db.Prelude.Assoc.{lookup}
use mini_graph_db.Storage.{Keyspace, ok, ks_version}
use mini_graph_db.Txn.Backend.{Backend}
use mini_graph_db.Txn.Version.{meta_key, encode_oracle}
use mini_graph_db.Txn.Versions.Scans.{IsOrdered-ext}
use mini_graph_db.Txn.Versions.Clean.{IsKept}
use mini_graph_db.Txn.Versions.Apart.{IsKept-IsApart}
use mini_graph_db.Txn.Open.Reopen.{open_manager-migrated}
use mini_graph_db.Txn.Manager.{Manager, Options}
use mini_graph_db.Txn.Manager.Isolation.{begun, AllKept, Saved, sealed-IsApart, oracle-Saved}
use mini_graph_db.Txn.Manager.Snapshots.{IsSound}
use mini_graph_db.Txn.Open.{
  user_keyspaces, Survey, each_raw, survey, wrap_all, read_oracle, migrate_raw, migrate,
  first_oracle, see_all, open_manager,
}

module _ (b : Backend) where
  open b use {view, IsOpen, IsReady, Eng, Tx}

  each_raw-empty :
      (t : Tx) (ks : Keyspace)
      → IsOpen t
      → ((j : Bytes) → view t ks j ≡ none)
      → each_raw b t ks ≡ ok []
  unfolding each_raw lookup
  each_raw-empty t ks o bare =
      let (l, el, ol, hl) = b.scan_view t ks [] o in
      let empty : l ≡ [] = IsOrdered-ext l [] ol tt (λ j. ground (arith, hl j, bare j)) in
      rw (el, empty) refl

  survey-empty :
      (t : Tx) (spaces : List Keyspace) (s : Survey)
      → IsOpen t
      → All (λ ks. (j : Bytes) → view t ks j ≡ none) spaces
      → survey b t spaces s ≡ ok s
  unfolding survey see_all
  survey-empty t [] s o bare = refl
  survey-empty t (ks ∷ spaces) s o bare =
      rw (each_raw-empty t ks o bare.0) (survey-empty t spaces s o bare.1)

  -- Nothing in the users' keyspaces.
  users-empty :
      (t : Tx)
      → ((ks : Keyspace) → ks ≢ ks_version → (j : Bytes) → view t ks j ≡ none)
      → All (λ ks. (j : Bytes) → view t ks j ≡ none) user_keyspaces
  unfolding user_keyspaces
  users-empty t bare = (
    bare _ (λ e. omega (arith, e)),
    (
      bare _ (λ e. omega (arith, e)),
      (
        bare _ (λ e. omega (arith, e)),
        (
          bare _ (λ e. omega (arith, e)),
          (
            bare _ (λ e. omega (arith, e)),
            (
              bare _ (λ e. omega (arith, e)),
              (bare _ (λ e. omega (arith, e)), (bare _ (λ e. omega (arith, e)), tt)),
            ),
          ),
        ),
      ),
    ),
  )

  module _ (e : Eng) (r : IsReady e)
      (nothing : (js : Keyspace) (j : Bytes) → b.holds e js j ≡ none) where
    view-nothing : (js : Keyspace) (j : Bytes) → view (begun b e r) js j ≡ none
    view-nothing js j = (b.begin_view e r).3 js j ∙ nothing js j

    read_oracle-nothing : read_oracle b e ≡ ok none
    unfolding read_oracle
    read_oracle-nothing =
        let (t, begins, o, seen) = b.begin_view e r in
        rw begins
          (ground (arith, b.get_view t ks_version meta_key o, view-nothing ks_version meta_key))

    -- No key has a record.
    nothing-IsKept : (js : Keyspace) (j : Bytes) → IsKept b (begun b e r) js j 0
    nothing-IsKept js j = record {
      opened = (b.begin_view e r).2;
      head_fits = λ raw at. absurd (ground (arith, at, view-nothing js j));
      chain = λ raw i w at at'. absurd (ground (arith, at, view-nothing js j));
      bare = λ i w at at'. absurd (ground (arith, at', view-nothing ks_version i));
    }

    migrate-nothing :
        (e' : Eng) × (migrate b e ≡ ok e')
        × (r' : IsReady e') × AllKept b (begun b e' r') 0
        × Saved b e' 0
    unfolding migrate migrate_raw wrap_all first_oracle bytes_beq
    migrate-nothing =
        let t = begun b e r in
        let (u, put, ou, seen) =
          b.put_view t ks_version meta_key (encode_oracle (record { next_txn = 1; commit_ts = 0 }))
            (b.begin_view e r).2 in
        let (e', done, ready, held) = b.commit_view u ou in
        let surveyed =
          survey-empty t user_keyspaces (record { unwrapped = []; max_create = 0; saw = false })
            (b.begin_view e r).2 (users-empty t (λ ks own. view-nothing ks)) in
        (
          e',
          rw (read_oracle-nothing, (b.begin_view e r).1, surveyed, put, done) refl,
          ready,
          λ js j x.
              IsKept-IsApart b t (begun b e' ready) js j 0
                (sealed-IsApart b t u e' ready js j _ (b.begin_view e r).2 x.own seen held)
                (nothing-IsKept js j),
          oracle-Saved b e' (record { next_txn = 1; commit_ts = 0 }) (omega arith)
              (held ks_version meta_key ∙ seen ks_version meta_key),
        )

    -- `Open` on an engine that holds nothing succeeds: the engine gets an oracle record, and the
    -- manager on it is sound, at commit timestamp 0 and without an open transaction.
    pub open_manager-nothing :
        (opt : Options)
        → (m : Manager Eng) × (open_manager b e opt ≡ ok m)
          × IsSound b m
          × Saved b m.eng m.commit_ts
          × (m.commit_ts ≡ 0)
          × (m.live ≡ [])
    open_manager-nothing opt =
        let (e', migrated, ready, kept, saved) = migrate-nothing in
        let (m, opens, o) = open_manager-migrated b e e' ready 0 opt migrated kept saved in
        (m, opens, o.sound, rw (o.same_eng, o.clock) saved, o.clock, o.no_live)
