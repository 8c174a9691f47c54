-- ===== src/Wal/Record.antt =====
-- wal/record.go: the frames of the log, and the payloads of the redo records. `checksum` is
-- `crc32.Checksum(_, crcTable)`; every theorem holds for any function into uint32.
pub mod Codec
use mini_graph_db.Prelude.{
  ℕ, suc, ◌+◌, ◌-◌, ◌^◌, Bool, true, false, not, List, [], ◌∷◌, ◌++◌, if◌then◌else◌, length, drop,
  take, ltb, leb, ◌==◌, nat_eq, ◌||◌, ◌&&◌,
}
use mini_graph_db.Prelude.Bytes.{Bytes}
use mini_graph_db.Prelude.Int.{ℤ}
use mini_graph_db.Storage.{
  Keyspace, Result, ok, err, ◌>>=◌, corruption, invalid_argument, unavailable,
}
use mini_graph_db.Wal.Words.{
  put_uint16_le, put_uint32_le, put_uint64_le, uint16_le, uint32_le, uint64_le, to_uint64, to_int64,
}

abbrev pub magic : Bytes
magic = b'G' ∷ b'R' ∷ b'W' ∷ b'L' ∷ []

abbrev pub format_version : ℕ
format_version = 1

abbrev pub max_payload : ℕ
max_payload = 16777216

abbrev pub header_size : ℕ
header_size = 28

abbrev pub record_header : ℕ
record_header = 24

abbrev pub crc_size : ℕ
crc_size = 4

-- `Type`: an unchecked uint16.
abbrev pub Kind : Type 0
Kind = ℕ

abbrev pub type_page_write : Kind
type_page_write = 1

abbrev pub type_checkpoint : Kind
type_checkpoint = 7

pub record Record : Type 0 where
  pub lsn : ℕ
  pub txn_id : ℕ
  pub kind : Kind
  pub payload : Bytes

unfoldable pub size : Record → ℕ
size r = record_header + length r.payload + crc_size

unfoldable pub valid_type : Kind → Bool
valid_type t = leb type_page_write t && leb t type_checkpoint

-- The part of a frame that the checksum covers.
unfoldable pub frame_body : Record → Bytes
frame_body r =
    put_uint64_le r.lsn
    ++ (put_uint64_le r.txn_id
        ++ (put_uint16_le r.kind ++ (0 ∷ 0 ∷ (put_uint32_le (length r.payload) ++ r.payload))))

module _ (checksum : Bytes → ℕ) where
  unfoldable pub frame : Record → Bytes
  frame r = frame_body r ++ put_uint32_le (checksum (frame_body r))

  unfoldable pub append_record : Bytes → Record → Bytes
  append_record dst r = dst ++ frame r

  unfoldable pub encode_header : ℕ → ℕ → Bytes
  encode_header num first =
      let b =
        magic
        ++ (put_uint16_le format_version ++ (0 ∷ 0 ∷ (put_uint64_le num ++ put_uint64_le first))) in
      b ++ put_uint32_le (checksum b)

unfoldable pub encode_page_write : ℕ → Bytes → Result Bytes
encode_page_write page_id [] = err invalid_argument
encode_page_write page_id (b ∷ image) = ok (put_uint64_le page_id ++ b ∷ image)

unfoldable pub decode_page_write : Bytes → Result (ℕ × Bytes)
decode_page_write payload =
    if ltb (length payload) 8
    then err corruption
    else if length (drop 8 payload) == 0
    then err corruption
    else ok (uint64_le payload, drop 8 payload)

unfoldable pub encode_tree_insert : Keyspace → Bytes → Bytes → Bytes
encode_tree_insert ks key val =
    ks ∷ (put_uint32_le (length key) ++ (key ++ (put_uint32_le (length val) ++ val)))

abbrev pub first : Bytes → ℕ
first [] = 0
first (b ∷ _) = b

-- `keyLen` and `valLen` are never negative: a uint32 fits an int.
unfoldable pub decode_tree_insert : Bytes → Result (Keyspace × Bytes × Bytes)
decode_tree_insert payload =
    if ltb (length payload) 5
    then err corruption
    else (let key_len = uint32_le (drop 1 payload) in
        if ltb (length payload) (5 + key_len + 4)
        then err corruption
        else (let val_len = uint32_le (drop (5 + key_len) payload) in
            if not (5 + key_len + 4 + val_len == length payload)
            then err corruption
            else ok (
              first payload,
              take key_len (drop 5 payload),
              take val_len (drop (5 + key_len + 4) payload),
            )))

unfoldable pub encode_tree_delete : Keyspace → Bytes → Bytes
encode_tree_delete ks key = ks ∷ (put_uint32_le (length key) ++ key)

unfoldable pub decode_tree_delete : Bytes → Result (Keyspace × Bytes)
decode_tree_delete payload =
    if ltb (length payload) 5
    then err corruption
    else if not (5 + uint32_le (drop 1 payload) == length payload)
    then err corruption
    else ok (first payload, drop 5 payload)

unfoldable pub encode_checkpoint : ℤ → Bytes
encode_checkpoint unix_nano = put_uint64_le (to_uint64 unix_nano)

unfoldable pub decode_checkpoint : Bytes → Result ℤ
decode_checkpoint payload =
    if not (length payload == 8) then err corruption else ok (to_int64 (uint64_le payload))

-- `readFullAt` on a file whose bytes are given; a short file is `io.ErrUnexpectedEOF` or `io.EOF`,
-- which the callers wrap.
unfoldable pub read_full_at : Bytes → ℕ → ℕ → Result Bytes
read_full_at file n off =
    if leb (off + n) (length file) then ok (take n (drop off file)) else err unavailable
