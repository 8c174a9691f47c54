-- ===== src/Txn/Versions/ChainKeys.antt =====
-- Keys of version chains: the versions of one key stand together in keyspace V, oldest first.
use mini_graph_db.Prelude.{
  ℕ, ◌≤◌, ◌/◌, ◌%◌, ◌^◌, ◌<◌, true, [], ◌∷◌, ◌++◌, ◌≡◌, refl, arith, length, length-append, drop,
  drop-append, ◌∙◌,
}
use mathlib.Core.List.{append-nil}
use mini_graph_db.Prelude.Bytes.{Bytes, put_uint64, uint64, uint64-put_uint64, compare_bytes}
use mini_graph_db.Storage.{Keyspace}
use mini_graph_db.Memory.Space.Keys.{IsBelow}
use mini_graph_db.Txn.Version.{chain_prefix, chain_key, put_uint32}
use mini_graph_db.Txn.Versions.{has_prefix, is_chain_of}

pub has_prefix-append : (p s : Bytes) → has_prefix p (p ++ s) ≡ true
unfolding has_prefix
has_prefix-append [] s = refl
has_prefix-append (x ∷ xs) s = ground (arith, has_prefix-append xs s)

has_prefix-eq : (k j s : Bytes) → length k ≡ length j → has_prefix k (j ++ s) ≡ true → k ≡ j
unfolding has_prefix
has_prefix-eq [] [] s n h = refl
has_prefix-eq [] (y ∷ ys) s n h = absurd (omega arith)
has_prefix-eq (x ∷ xs) [] s n h = absurd (omega arith)
has_prefix-eq (x ∷ xs) (y ∷ ys) s n h = ground (arith, has_prefix-eq xs ys s (omega arith))

compare_bytes-append : (p a b : Bytes) → compare_bytes (p ++ a) (p ++ b) ≡ compare_bytes a b
unfolding compare_bytes
compare_bytes-append [] a b = refl
compare_bytes-append (x ∷ xs) a b = ground (arith, compare_bytes-append xs a b)

-- The first byte decides, or the rest does.
step-IsBelow :
    (x y : ℕ) (xs ys : Bytes) → x ≤ y → (x ≡ y → IsBelow xs ys) → IsBelow (x ∷ xs) (y ∷ ys)
unfolding compare_bytes
step-IsBelow x y xs ys h rest = ground (arith, rest)

-- The low bytes of two numbers, by the order of what those bytes hold.
module _ (c d : ℕ) where
  IsBelow-8 : c % 2 ^ 8 < d % 2 ^ 8 → IsBelow ((c % 256) ∷ []) ((d % 256) ∷ [])
  unfolding compare_bytes
  IsBelow-8 h = ground arith

  IsBelow-16 :
      c % 2 ^ 16 < d % 2 ^ 16
      → IsBelow ((c / 2 ^ 8 % 256) ∷ (c % 256) ∷ []) ((d / 2 ^ 8 % 256) ∷ (d % 256) ∷ [])
  IsBelow-16 h = step-IsBelow _ _ _ _ (omega arith) λ e. IsBelow-8 (omega arith)

  IsBelow-24 :
      c % 2 ^ 24 < d % 2 ^ 24
      → IsBelow
          ((c / 2 ^ 16 % 256) ∷ (c / 2 ^ 8 % 256) ∷ (c % 256) ∷ [])
          ((d / 2 ^ 16 % 256) ∷ (d / 2 ^ 8 % 256) ∷ (d % 256) ∷ [])
  IsBelow-24 h = step-IsBelow _ _ _ _ (omega arith) λ e. IsBelow-16 (omega arith)

  IsBelow-32 :
      c % 2 ^ 32 < d % 2 ^ 32
      → IsBelow
          ((c / 2 ^ 24 % 256) ∷ (c / 2 ^ 16 % 256) ∷ (c / 2 ^ 8 % 256) ∷ (c % 256) ∷ [])
          ((d / 2 ^ 24 % 256) ∷ (d / 2 ^ 16 % 256) ∷ (d / 2 ^ 8 % 256) ∷ (d % 256) ∷ [])
  IsBelow-32 h = step-IsBelow _ _ _ _ (omega arith) λ e. IsBelow-24 (omega arith)

  IsBelow-40 :
      c % 2 ^ 40 < d % 2 ^ 40
      → IsBelow
          ((c / 2 ^ 32 % 256)
            ∷ (c / 2 ^ 24 % 256)
            ∷ (c / 2 ^ 16 % 256)
            ∷ (c / 2 ^ 8 % 256)
            ∷ (c % 256)
            ∷ [])
          ((d / 2 ^ 32 % 256)
            ∷ (d / 2 ^ 24 % 256)
            ∷ (d / 2 ^ 16 % 256)
            ∷ (d / 2 ^ 8 % 256)
            ∷ (d % 256)
            ∷ [])
  IsBelow-40 h = step-IsBelow _ _ _ _ (omega arith) λ e. IsBelow-32 (omega arith)

  IsBelow-48 :
      c % 2 ^ 48 < d % 2 ^ 48
      → IsBelow
          ((c / 2 ^ 40 % 256)
            ∷ (c / 2 ^ 32 % 256)
            ∷ (c / 2 ^ 24 % 256)
            ∷ (c / 2 ^ 16 % 256)
            ∷ (c / 2 ^ 8 % 256)
            ∷ (c % 256)
            ∷ [])
          ((d / 2 ^ 40 % 256)
            ∷ (d / 2 ^ 32 % 256)
            ∷ (d / 2 ^ 24 % 256)
            ∷ (d / 2 ^ 16 % 256)
            ∷ (d / 2 ^ 8 % 256)
            ∷ (d % 256)
            ∷ [])
  IsBelow-48 h = step-IsBelow _ _ _ _ (omega arith) λ e. IsBelow-40 (omega arith)

  IsBelow-56 :
      c % 2 ^ 56 < d % 2 ^ 56
      → IsBelow
          ((c / 2 ^ 48 % 256)
            ∷ (c / 2 ^ 40 % 256)
            ∷ (c / 2 ^ 32 % 256)
            ∷ (c / 2 ^ 24 % 256)
            ∷ (c / 2 ^ 16 % 256)
            ∷ (c / 2 ^ 8 % 256)
            ∷ (c % 256)
            ∷ [])
          ((d / 2 ^ 48 % 256)
            ∷ (d / 2 ^ 40 % 256)
            ∷ (d / 2 ^ 32 % 256)
            ∷ (d / 2 ^ 24 % 256)
            ∷ (d / 2 ^ 16 % 256)
            ∷ (d / 2 ^ 8 % 256)
            ∷ (d % 256)
            ∷ [])
  IsBelow-56 h = step-IsBelow _ _ _ _ (omega arith) λ e. IsBelow-48 (omega arith)

  IsBelow-64 :
      c % 2 ^ 64 < d % 2 ^ 64
      → IsBelow
          ((c / 2 ^ 56 % 256)
            ∷ (c / 2 ^ 48 % 256)
            ∷ (c / 2 ^ 40 % 256)
            ∷ (c / 2 ^ 32 % 256)
            ∷ (c / 2 ^ 24 % 256)
            ∷ (c / 2 ^ 16 % 256)
            ∷ (c / 2 ^ 8 % 256)
            ∷ (c % 256)
            ∷ [])
          ((d / 2 ^ 56 % 256)
            ∷ (d / 2 ^ 48 % 256)
            ∷ (d / 2 ^ 40 % 256)
            ∷ (d / 2 ^ 32 % 256)
            ∷ (d / 2 ^ 24 % 256)
            ∷ (d / 2 ^ 16 % 256)
            ∷ (d / 2 ^ 8 % 256)
            ∷ (d % 256)
            ∷ [])
  IsBelow-64 h = step-IsBelow _ _ _ _ (omega arith) λ e. IsBelow-56 (omega arith)

compare-put_uint64 : (c d : ℕ) → c < d → d < 2 ^ 64 → IsBelow (put_uint64 c) (put_uint64 d)
unfolding put_uint64
compare-put_uint64 c d h k = IsBelow-64 c d (omega arith)

length-put_uint64 : (n : ℕ) → length (put_uint64 n) ≡ 8
unfolding put_uint64
length-put_uint64 n = refl

module _ (ks : Keyspace) (k : Bytes) where
  pub has_prefix-chain_key : (c : ℕ) → has_prefix (chain_prefix ks k) (chain_key ks k c) ≡ true
  unfolding chain_key
  has_prefix-chain_key c = has_prefix-append (chain_prefix ks k) (put_uint64 c)

  pub is_chain_of-chain_key : (c : ℕ) → is_chain_of (chain_prefix ks k) (chain_key ks k c) ≡ true
  unfolding chain_key
  is_chain_of-chain_key c = ground (
    arith,
    has_prefix-append (chain_prefix ks k) (put_uint64 c),
    length-append (chain_prefix ks k) (put_uint64 c),
    length-put_uint64 c,
  )

  -- The create timestamp that `loadChain` reads off the key.
  pub create_of_chain_key :
      (c : ℕ) → c < 2 ^ 64 → uint64 (drop (length (chain_prefix ks k)) (chain_key ks k c)) ≡ c
  unfolding chain_key
  create_of_chain_key c h = rw (drop-append (chain_prefix ks k) (put_uint64 c)) (uint64_put c h)
    where
      uint64_put : (c : ℕ) → c < 2 ^ 64 → uint64 (put_uint64 c) ≡ c
      uint64_put c h = rw (← append-nil (put_uint64 c)) (uint64-put_uint64 c [] h)

  pub chain_key_mono :
      (c d : ℕ) → c < d → d < 2 ^ 64 → IsBelow (chain_key ks k c) (chain_key ks k d)
  unfolding chain_key
  chain_key_mono c d h m =
      compare_bytes-append (chain_prefix ks k) (put_uint64 c) (put_uint64 d)
      ∙ compare-put_uint64 c d h m

-- A chain key names its keyspace and its key.
pub chain_key_inj :
    (ks js : Keyspace) (k j : Bytes) (c : ℕ)
    → length k < 2 ^ 32
    → length j < 2 ^ 32
    → has_prefix (chain_prefix ks k) (chain_key js j c) ≡ true
    → (ks ≡ js) × (k ≡ j)
unfolding chain_key chain_prefix has_prefix put_uint32
chain_key_inj ks js k j c hk hj h =
    let same : length k ≡ length j = ground arith in
    (ground arith, has_prefix-eq k j (put_uint64 c) same (ground arith))
