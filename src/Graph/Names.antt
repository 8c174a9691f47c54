-- ===== src/Graph/Names.antt =====
-- internal/storage/graphstore/keys.go: counters and interned names in the catalog keyspace. An error
-- leaves the transaction as far as the call has come, which is not modelled.
use mini_graph_db.Prelude.{
  ℕ, ◌+◌, ◌-◌, ◌^◌, ◌%◌, not, Option, none, some, [], length, if◌then◌else◌, ltb, ◌==◌, nat_eq,
}
use mini_graph_db.Prelude.Bytes.{Bytes, put_uint64, uint64, put_uint32, uint32}
use mini_graph_db.Storage.{Result, ok, err, ◌>>=◌, is_not_found, corruption, ks_catalog}
use mini_graph_db.Txn.Backend.{Backend}
use mini_graph_db.Graph.Keys.{catalog_key, rev_key}

-- `Get`, where a missing key is no error.
abbrev pub maybe : Result Bytes → Result (Option Bytes)
maybe (ok raw) = ok (some raw)
maybe (err e) = if is_not_found e then ok none else err e

-- The eight bytes are a uint64.
abbrev pub counter_of : Option Bytes → Result ℕ
counter_of none = ok 1
counter_of (some raw) = if not (length raw == 8) then err corruption else ok (uint64 raw % 2 ^ 64)

abbrev pub id_of_raw : Bytes → Result ℕ
id_of_raw raw = if not (length raw == 4) then err corruption else ok (uint32 raw)

abbrev pub maybe_id : Option Bytes → Result (Option ℕ)
maybe_id none = ok none
maybe_id (some raw) = do id ← id_of_raw raw; ok (some id)

-- `if next > math.MaxUint32`.
abbrev pub id_space : ℕ → Result (Unit {0})
id_space next = if ltb (2 ^ 32 - 1) next then err corruption else ok tt

module _ (b : Backend) where
  open b use {Tx}

  unfoldable pub read_counter : Tx → ℕ → Result ℕ
  read_counter t kind = do o ← maybe (b.get t ks_catalog (catalog_key kind [])); counter_of o

  unfoldable pub write_counter : Tx → ℕ → ℕ → Result Tx
  write_counter t kind next = b.put t ks_catalog (catalog_key kind []) (put_uint64 next)

  -- `next + 1` wraps in the eight bytes that hold it.
  unfoldable pub alloc : Tx → ℕ → Result (ℕ × Tx)
  alloc t kind = do next ← read_counter t kind; u ← write_counter t kind (next + 1); ok (next, u)

  unfoldable pub put_name : Tx → (kind rev : ℕ) → Bytes → ℕ → Result Tx
  put_name t kind rev name id = do
    u ← b.put t ks_catalog (catalog_key kind name) (put_uint32 id)
    b.put u ks_catalog (rev_key rev id) name

  -- `intern` from the counter on.
  unfoldable pub intern_new : Tx → (kind rev counter : ℕ) → Bytes → Result (ℕ × Tx)
  intern_new t kind rev counter name = do
    read ← read_counter t counter
    let next = if read == 0 then 1 else read
    _ ← id_space next
    u ← put_name t kind rev name next
    v ← write_counter u counter (next + 1)
    ok (next, v)

  abbrev pub intern_found : Tx → (kind rev counter : ℕ) → Bytes → Option Bytes → Result (ℕ × Tx)
  intern_found t kind rev counter name none = intern_new t kind rev counter name
  intern_found t kind rev counter name (some raw) = do id ← id_of_raw raw; ok (id, t)

  unfoldable pub intern : Tx → (kind rev counter : ℕ) → Bytes → Result (ℕ × Tx)
  intern t kind rev counter name = do
    o ← maybe (b.get t ks_catalog (catalog_key kind name))
    intern_found t kind rev counter name o

  -- `none`: the name is not there.
  unfoldable pub cat_name : Tx → ℕ → ℕ → Result (Option Bytes)
  cat_name t rev id = if id == 0 then ok none else maybe (b.get t ks_catalog (rev_key rev id))

  unfoldable pub lookup_name : Tx → ℕ → Bytes → Result (Option ℕ)
  lookup_name t kind name = do o ← maybe (b.get t ks_catalog (catalog_key kind name)); maybe_id o
