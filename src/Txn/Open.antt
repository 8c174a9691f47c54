-- ===== src/Txn/Open.antt =====
-- txn/store.go and manager.go: opening a database (migration, the oracle, the live-key count), and
-- the manager's close and counters.
pub mod Fresh
pub mod Reopen
use mini_graph_db.Prelude.{
  ℕ, ◌+◌, Bool, true, false, not, Option, none, some, List, [], ◌∷◌, ◌++◌, if◌then◌else◌, ltb, ◌==◌,
  nat_eq, ◌&&◌,
}
use mini_graph_db.Prelude.Bytes.{Bytes}
use mini_graph_db.Prelude.Int.{ℤ, pos, negsuc}
use mini_graph_db.Storage.{
  Keyspace, Result, ok, err, ◌>>=◌, internal, err_closed, is_not_found, ks_node, ks_edge, ks_out,
  ks_in, ks_label, ks_edge_type, ks_prop, ks_catalog, ks_version,
}
use mini_graph_db.Memory.Snapshot.{Item}
use mini_graph_db.Memory.Engine.{Hooks}
use mini_graph_db.Txn.Backend.{Backend}
use mini_graph_db.Txn.Version.{
  decode_head, encode_head, Oracle, decode_oracle, encode_oracle, meta_key,
}
use mini_graph_db.Txn.Manager.{Manager, Options, Reply, Tx, abort_live, wrap}

unfoldable pub user_keyspaces : List Keyspace
user_keyspaces =
    ks_node ∷ ks_edge ∷ ks_out ∷ ks_in ∷ ks_label ∷ ks_edge_type ∷ ks_prop ∷ ks_catalog ∷ []

-- `pending` of `migrate`.
pub record Pending : Type 0 where
  pub ks : Keyspace
  pub key : Bytes
  pub payload : Bytes

-- `wrap`, `maxCreate` and `saw`.
pub record Survey : Type 0 where
  pub unwrapped : List Pending
  pub max_create : ℕ
  pub saw : Bool

-- The callback of `migrate`'s loop.
unfoldable pub see : Keyspace → Survey → Item → Survey
see ks s (key, val) =
    let h = decode_head val in
    if not h.legacy
    then record s {
      saw = true;
      max_create = if ltb s.max_create h.create then h.create else s.max_create;
    }
    else record s {
      saw = true;
      unwrapped = s.unwrapped ++ record { ks = ks; key = key; payload = h.payload } ∷ [];
    }

unfoldable pub see_all : Keyspace → Survey → List Item → Survey
see_all ks s [] = s
see_all ks s (x ∷ items) = see_all ks (see ks s x) items

abbrev pub is_empty : List Pending → Bool
is_empty [] = true
is_empty (_ ∷ _) = false

-- The oracle that `migrate` writes.
unfoldable pub first_oracle : Survey → Oracle
first_oracle s =
    let wrapped = if not (is_empty s.unwrapped) && ltb s.max_create 1 then 1 else s.max_create in
    let newest = if wrapped == 0 then 1 else wrapped in
    if s.saw
    then record { next_txn = wrap (newest + 1); commit_ts = newest }
    else record { next_txn = 1; commit_ts = 0 }

-- The heads that are not deleted.
unfoldable pub live_heads : List Item → ℕ
live_heads [] = 0
live_heads ((key, val) ∷ items) =
    let rest = live_heads items in if (decode_head val).delete == 0 then 1 + rest else rest

abbrev pub blank : Tx
blank = record {
  id = 0;
  snapshot = 0;
  commit_ts = 0;
  ro = true;
  done = true;
  writes = [];
  marks = [];
  last = 0;
  started = 0;
}

-- The manager that `Open` returns.
abbrev pub opened : {E : Type 0} → E → Options → Oracle → ℕ → Manager E
opened e opt o n = record {
  eng = e;
  opt = opt;
  hooks = record { before_commit = none; after_commit = none };
  next_txn_id = if o.next_txn == 0 then 1 else o.next_txn;
  commit_ts = o.commit_ts;
  live_keys = pos n;
  tx = λ i. blank;
  next = 0;
  live = [];
  commits = 0;
  rollbacks = 0;
  closed = false;
}

module _ (b : Backend) where
  -- `eachRaw`: the items from `Seek(nil)` on.
  unfoldable pub each_raw : b.Tx → Keyspace → Result (List Item)
  each_raw t ks = b.scan t ks []

  unfoldable pub survey : b.Tx → List Keyspace → Survey → Result Survey
  survey t [] s = ok s
  survey t (ks ∷ spaces) s = do items ← each_raw t ks; survey t spaces (see_all ks s items)

  unfoldable pub wrap_all : b.Tx → List Pending → Result b.Tx
  wrap_all t [] = ok t
  wrap_all t (p ∷ ps) = do u ← b.put t p.ks p.key (encode_head 1 0 p.payload); wrap_all u ps

  abbrev pub oracle_of : Result Bytes → Result (Option Oracle)
  oracle_of (ok raw) = do o ← decode_oracle raw; ok (some o)
  oracle_of (err e) = if is_not_found e then ok none else err e

  unfoldable pub read_oracle : b.Eng → Result (Option Oracle)
  read_oracle e = do t ← b.begin e; oracle_of (b.get t ks_version meta_key)

  abbrev pub present : Option Oracle → Result Oracle
  present none = err internal
  present (some o) = ok o

  unfoldable pub load_oracle : b.Eng → Result Oracle
  load_oracle e = do o ← read_oracle e; present o

  -- `migrate` where there is no oracle.
  unfoldable pub migrate_raw : b.Eng → Result b.Eng
  migrate_raw e = do
    t ← b.begin e
    s ← survey t user_keyspaces (record { unwrapped = []; max_create = 0; saw = false })
    u ← wrap_all t s.unwrapped
    v ← b.put u ks_version meta_key (encode_oracle (first_oracle s))
    b.commit v

  abbrev pub unless_migrated : b.Eng → Option Oracle → Result b.Eng
  unless_migrated e (some _) = ok e
  unless_migrated e none = migrate_raw e

  unfoldable pub migrate : b.Eng → Result b.Eng
  migrate e = do o ← read_oracle e; unless_migrated e o

  unfoldable pub count_live : b.Tx → List Keyspace → Result ℕ
  count_live t [] = ok 0
  count_live t (ks ∷ spaces) = do
    items ← each_raw t ks
    rest ← count_live t spaces
    ok (live_heads items + rest)

  -- `Open`, with the options after `normalize`; hooks are set later.
  unfoldable pub open_manager : b.Eng → Options → Result (Manager b.Eng)
  unfolding load_oracle migrate count_live
  open_manager e opt = do
    e' ← migrate e
    o ← load_oracle e'
    t ← b.begin e'
    n ← count_live t user_keyspaces
    ok (opened e' opt o n)

module _ {E : Type 0} where
  -- `Close` up to the engine's own close, whose outcome it returns.
  unfoldable pub close_manager : Manager E → Result (Unit {0}) → Reply E (Unit {0})
  close_manager m outcome =
      if m.closed
      then (ok tt, m)
      else (outcome, record m { tx = abort_live m; live = []; closed = true })

  -- `Sync`, with the outcome of the engine's.
  unfoldable pub sync : Manager E → Result (Unit {0}) → Result (Unit {0})
  sync m outcome = if m.closed then err err_closed else outcome

  unfoldable pub set_hooks : Manager E → Hooks → Manager E
  set_hooks m h = record m { hooks = h }

-- A cap of `Options` as the caller gives it: 0 selects the default, a negative one disables it.
unfoldable pub normalize_cap : ℕ → ℤ → Option ℕ
normalize_cap default (pos n) = if n == 0 then some default else some n
normalize_cap default (negsuc n) = none
