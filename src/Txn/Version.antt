-- ===== src/Txn/Version.antt =====
-- txn/version.go: visibility, and the encodings of heads, chain records and the oracle. Timestamps
-- are uint64. `clone` and `payloadCopy` copy, so they are the identity on values.
pub mod Codec
use mini_graph_db.Prelude.{
  ℕ, zero, suc, ◌+◌, ◌/◌, ◌%◌, ◌^◌, Bool, true, false, not, List, [], ◌∷◌, ◌++◌, if◌then◌else◌,
  length, drop, take, ltb, leb, ◌==◌, nat_eq, ◌||◌, ◌&&◌,
}
use mini_graph_db.Prelude.Bytes.{Bytes, put_uint64, uint64}
use mini_graph_db.Storage.{Keyspace, Result, ok, err, corruption, invalid_argument}

abbrev pub format_version : ℕ
format_version = 1

abbrev pub head_magic : ℕ
head_magic = 0xA5

abbrev pub head_header : ℕ
head_header = 17

abbrev pub chain_mark : ℕ
chain_mark = 1

abbrev pub meta_key : Bytes
meta_key = 0 ∷ []

unfoldable pub visible : ℕ → ℕ → ℕ → Bool
visible create_ts delete_ts snapshot =
    if ltb snapshot create_ts
    then false
    else if not (delete_ts == 0) && leb delete_ts snapshot
    then false
    else true

pub record Head : Type 0 where
  pub create : ℕ
  pub delete : ℕ
  pub payload : Bytes
  pub legacy : Bool

unfoldable pub encode_head : ℕ → ℕ → Bytes → Bytes
unfolding put_uint64
encode_head create delete_ts payload =
    head_magic ∷ (put_uint64 create ++ (put_uint64 delete_ts ++ payload))

abbrev first : Bytes → ℕ
first [] = 0
first (b ∷ _) = b

unfoldable pub decode_head : Bytes → Head
unfolding uint64
decode_head b =
    if ltb (length b) head_header || not (first b == head_magic)
    then record { create = 0; delete = 0; payload = b; legacy = true }
    else record {
      create = uint64 (drop 1 b);
      delete = uint64 (drop 9 b);
      payload = drop head_header b;
      legacy = false;
    }

unfoldable pub encode_chain : ℕ → Bytes → Bytes
unfolding put_uint64
encode_chain delete_ts payload = put_uint64 delete_ts ++ payload

-- `create` is filled in by the caller, from the key.
unfoldable pub decode_chain : Bytes → Result Head
unfolding uint64
decode_chain b =
    if ltb (length b) 8
    then err corruption
    else ok (record { create = 0; delete = uint64 b; payload = drop 8 b; legacy = false })

-- `binary.BigEndian.PutUint32(buf, uint32(n))`.
unfoldable pub put_uint32 : ℕ → Bytes
put_uint32 n = (n / 2 ^ 24 % 256) ∷ (n / 2 ^ 16 % 256) ∷ (n / 2 ^ 8 % 256) ∷ (n % 256) ∷ []

unfoldable pub chain_prefix : Keyspace → Bytes → Bytes
unfolding put_uint32
chain_prefix ks key = chain_mark ∷ ks ∷ (put_uint32 (length key) ++ key)

unfoldable pub chain_key : Keyspace → Bytes → ℕ → Bytes
chain_key ks key create_ts = chain_prefix ks key ++ put_uint64 create_ts

pub record Oracle : Type 0 where
  pub next_txn : ℕ
  pub commit_ts : ℕ

unfoldable pub encode_oracle : Oracle → Bytes
unfolding put_uint64
encode_oracle o = format_version ∷ (put_uint64 o.next_txn ++ put_uint64 o.commit_ts)

unfoldable pub decode_oracle : Bytes → Result Oracle
unfolding uint64
decode_oracle b =
    if not (length b == 17)
    then err corruption
    else if ltb format_version (first b)
    then err invalid_argument
    else if not (first b == format_version)
    then err corruption
    else ok (record { next_txn = uint64 (drop 1 b); commit_ts = uint64 (drop 9 b) })
