-- ===== src/Storage.antt =====
-- internal/storage/engine.go: keyspaces and sentinel errors; the error codes of internal/gerr that
-- the storage layers return; the write sets that the memory engine and the manager share.
pub mod WriteSet
pub mod Ensures
use mini_graph_db.Prelude.{◌≡◌, refl, ◌⊎◌, inl, inr, ℕ, Bool, true, false}

abbrev pub Keyspace : Type 0
Keyspace = ℕ

abbrev pub ks_node : Keyspace
ks_node = b'N'

abbrev pub ks_edge : Keyspace
ks_edge = b'E'

abbrev pub ks_out : Keyspace
ks_out = b'O'

abbrev pub ks_in : Keyspace
ks_in = b'I'

abbrev pub ks_label : Keyspace
ks_label = b'L'

abbrev pub ks_edge_type : Keyspace
ks_edge_type = b'T'

abbrev pub ks_prop : Keyspace
ks_prop = b'P'

abbrev pub ks_catalog : Keyspace
ks_catalog = b'C'

abbrev pub ks_version : Keyspace
ks_version = b'V'

-- The sentinels of engine.go, the codes of gerr.go, `io.EOF`, `ErrClosed` of the log, and an error
-- of a crash-simulation hook.
pub data Error : Type 0 where
  err_not_found err_read_only err_closed err_done : Error
  not_found already_exists invalid_argument syntax semantic : Error
  constraint_violation conflict unauthenticated permission_denied : Error
  resource_exhausted corruption unavailable internal : Error
  eof wal_closed : Error
  hook_failed : ℕ → Error

-- `Code.Retryable`; a sentinel has no code.
pub retryable : Error → Bool
retryable conflict = true
retryable unavailable = true
retryable resource_exhausted = true
retryable _ = false

-- `errors.Is(err, storage.ErrNotFound)`.
abbrev pub is_not_found : Error → Bool
is_not_found err_not_found = true
is_not_found _ = false

-- Go's pair of a value and an error.
pub data Result {ℓ} (A : Type ℓ) : Type ℓ where
  err : Error → Result A
  ok : A → Result A

-- `if err != nil { return err }` between two calls.
module _ {ℓ κ} {A : Type ℓ} {B : Type κ} where
  infixl 5 ◌>>=◌
  abbrev pub ◌>>=◌ : Result A → (A → Result B) → Result B
  ◌>>=◌ (err e) next = err e
  ◌>>=◌ (ok a) next = next a

module _ {ℓ} {B : Type ℓ} where
  infixl 5 ◌>>◌
  abbrev pub ◌>>◌ : Result (Unit {0}) → Result B → Result B
  ◌>>◌ (err e) next = err e
  ◌>>◌ (ok _) next = next

pub Result-cases {ℓ} :
    {A : Type ℓ} (r : Result A) → ((a : A) × (r ≡ ok a)) ⊎ ((e : Error) × (r ≡ err e))
Result-cases (err e) = inr (e, refl)
Result-cases (ok a) = inl (a, refl)
