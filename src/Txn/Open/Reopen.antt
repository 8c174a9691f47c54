-- ===== src/Txn/Open/Reopen.antt =====
-- txn/store.go and manager.go: `Open` on the engine that a manager leaves, at a crash too.
use mini_graph_db.Prelude.{
  ℕ, ◌+◌, ◌^◌, ◌<◌, false, some, List, [], ◌∷◌, ◌≡◌, refl, arith, nat_eq, ◌∙◌, All, length,
}
use mini_graph_db.Storage.{Keyspace, ok, ks_version}
use mini_graph_db.Txn.Backend.{Backend}
use mini_graph_db.Txn.Version.{meta_key}
use mini_graph_db.Txn.Manager.{Manager, Options}
use mini_graph_db.Txn.Manager.Isolation.{begun, AllKept, Saved}
use mini_graph_db.Txn.Manager.Snapshots.{IsSound, Extends}
use mini_graph_db.Txn.Manager.Run.{Call, FitsCall, run, run-Extends}
use mini_graph_db.Txn.Open.{
  user_keyspaces, each_raw, read_oracle, load_oracle, migrate, count_live, live_heads, open_manager,
  opened,
}

module _ (b : Backend) where
  open b use {IsOpen, IsReady, Eng, Tx}

  -- Counting the live keys of an open transaction does not fail.
  count_live-total :
      (t : Tx) (spaces : List Keyspace) → IsOpen t → (n : ℕ) × (count_live b t spaces ≡ ok n)
  unfolding count_live each_raw
  count_live-total t [] o = (0, refl)
  count_live-total t (ks ∷ spaces) o =
      let (l, scanned, _, _) = b.scan_view t ks [] o in
      let (n, rest) = count_live-total t spaces o in (live_heads l + n, rw (scanned, rest) refl)

  read_oracle-Saved :
      (e : Eng) (ts : ℕ) → IsReady e → (s : Saved b e ts) → read_oracle b e ≡ ok (some s.oracle)
  unfolding read_oracle
  read_oracle-Saved e ts r s =
      let (t, begins, o, seen) = b.begin_view e r in
      let got : b.get t ks_version meta_key ≡ ok s.raw =
        b.get_view t ks_version meta_key o ∙ rw (seen ks_version meta_key, s.held) refl in
      rw (begins, got, s.decodes) refl

  -- `Open` from the engine that `migrate` leaves on.
  pub record Opened (e : Eng) (ts : ℕ) (opt : Options) (m : Manager Eng) : Type 0 where
    pub sound : IsSound b m
    pub same_eng : m.eng ≡ e
    pub clock : m.commit_ts ≡ ts
    pub same_opt : m.opt ≡ opt
    pub no_live : m.live ≡ []
    pub is_open : m.closed ≡ false

  pub open_manager-migrated :
      (e e' : Eng) (r : IsReady e') (ts : ℕ) (opt : Options)
      → migrate b e ≡ ok e'
      → AllKept b (begun b e' r) ts
      → Saved b e' ts
      → (m : Manager Eng) × (open_manager b e opt ≡ ok m) × Opened e' ts opt m
  unfolding open_manager load_oracle
  open_manager-migrated e e' r ts opt migrated kept s =
      let (n, counted) = count_live-total (begun b e' r) user_keyspaces (b.begin_view e' r).2 in
      (
        opened e' opt s.oracle n,
        rw (migrated, read_oracle-Saved e' ts r s, (b.begin_view e' r).1, counted) refl,
        record {
          sound = record {
            stored = rw s.clock (r, kept);
            txs = λ i. record { began = omega arith; writes_fit = ((tt, tt), tt); marks_fit = tt };
          };
          same_eng = refl;
          clock = s.clock;
          same_opt = refl;
          no_live = refl;
          is_open = refl;
        },
      )

  pub open_manager-Saved :
      (e : Eng) (r : IsReady e) (ts : ℕ) (opt : Options)
      → AllKept b (begun b e r) ts
      → Saved b e ts
      → (m : Manager Eng) × (open_manager b e opt ≡ ok m) × Opened e ts opt m
  unfolding migrate
  open_manager-Saved e r ts opt kept s =
      open_manager-migrated e e r ts opt (rw (read_oracle-Saved e ts r s) refl) kept s

  -- When a sound manager with a stored oracle has run any sequence of Begin, Get, Put, DeferUnique, InsertUnique,
  -- Delete, Mark, RollbackTo, Rollback and Commit, without Vacuum, Crash or Close, `Open` on
  -- the engine they leave, which is still open, succeeds: its manager is sound, stands on that engine at the same commit timestamp, has no open
  -- transaction, and reads what the first manager read at the snapshots up to its commit timestamp.
  -- Written keys are shorter than 2 ^ 32 bytes, and the timestamps must not overflow.
  pub open_manager-run :
      (calls : List (Call b)) (m : Manager Eng) (opt : Options)
      → IsSound b m
      → Saved b m.eng m.commit_ts
      → All (FitsCall b) calls
      → m.commit_ts + length calls < 2 ^ 64
      → (n : Manager Eng) × (open_manager b (run b m calls).eng opt ≡ ok n)
        × Opened (run b m calls).eng (run b m calls).commit_ts opt n
        × Extends b (length calls) m n
  open_manager-run calls m opt s saved fits bounded =
      let x = run-Extends b calls m s fits bounded in
      let (n, opens, o) =
        open_manager-Saved (run b m calls).eng x.sound.stored.0 (run b m calls).commit_ts opt
          x.sound.stored.1 (x.saves saved) in
      (
        n,
        opens,
        o,
        record {
          sound = o.sound;
          grows = omega (arith, o.clock, x.grows);
          near = omega (arith, o.clock, x.near);
          reads = λ js j snap user h. rw o.same_eng (x.reads js j snap user h);
          saves = λ z. rw (o.same_eng, o.clock) (x.saves z);
        },
      )
