-- ===== src/Wal/Record/Codec.antt =====
-- Round trips of the payload encodings of record.go.
use mini_graph_db.Prelude.{
  ℕ, ◌+◌, ◌^◌, ◌<◌, [], ◌∷◌, ◌++◌, ◌≡◌, ◌≢◌, arith, refl, length, take, drop, length-append,
  take-append, drop-append, drop-add,
}
use mini_graph_db.Prelude.Bytes.{Bytes}
use mini_graph_db.Prelude.Int.{ℤ, pos, negsuc}
use mini_graph_db.Storage.{Keyspace, ok, ◌>>=◌}
use mini_graph_db.Wal.Words.{put_uint32_le, put_uint64_le, uint32_le, uint64_le, uint32_le-put}
use mini_graph_db.Wal.Record.{
  encode_page_write, decode_page_write, encode_tree_insert, decode_tree_insert, encode_tree_delete,
  decode_tree_delete, encode_checkpoint, decode_checkpoint,
}

-- A page write is read back as it was written, unless its image is empty.
pub decode_page_write-encode_page_write :
    (page_id : ℕ) (image : Bytes)
    → page_id < 2 ^ 64
    → image ≢ []
    → (encode_page_write page_id image >>= decode_page_write) ≡ ok (page_id, image)
unfolding encode_page_write decode_page_write put_uint64_le uint64_le
decode_page_write-encode_page_write page_id [] h k = ground (arith, k refl)
decode_page_write-encode_page_write page_id (b ∷ image) h k = ground arith

take-all : (xs : Bytes) → take (length xs) xs ≡ xs
take-all [] = refl
take-all (x ∷ xs) = rw (take-all xs) refl

-- A delete record is read back as it was written.
pub decode_tree_delete-encode_tree_delete :
    (ks : Keyspace) (key : Bytes)
    → length key < 2 ^ 32
    → decode_tree_delete (encode_tree_delete ks key) ≡ ok (ks, key)
unfolding encode_tree_delete decode_tree_delete put_uint32_le uint32_le
decode_tree_delete-encode_tree_delete ks key h = ground arith

-- An int64.
unfoldable pub Fits : ℤ → Type 0
Fits (pos n) = n < 2 ^ 63
Fits (negsuc n) = n < 2 ^ 63

-- A checkpoint's time is read back as it was written.
pub decode_checkpoint-encode_checkpoint :
    (n : ℤ) → Fits n → decode_checkpoint (encode_checkpoint n) ≡ ok n
unfolding encode_checkpoint decode_checkpoint put_uint64_le uint64_le Fits
decode_checkpoint-encode_checkpoint (pos n) h = ground arith
decode_checkpoint-encode_checkpoint (negsuc n) h = ground arith

-- What follows the key in an insert record.
after_key :
    (ks : Keyspace) (key rest : Bytes)
    → drop (5 + length key) (ks ∷ (put_uint32_le (length key) ++ (key ++ rest))) ≡ rest
unfolding put_uint32_le
after_key ks key rest = rw (drop-add 5 (length key) _) (drop-append key rest)

-- An insert record is read back as it was written.
pub decode_tree_insert-encode_tree_insert :
    (ks : Keyspace) (key val : Bytes)
    → length key < 2 ^ 32
    → length val < 2 ^ 32
    → decode_tree_insert (encode_tree_insert ks key val) ≡ ok (ks, key, val)
unfolding encode_tree_insert decode_tree_insert put_uint32_le
decode_tree_insert-encode_tree_insert ks key val h k =
    let rest = put_uint32_le (length val) ++ val in
    ground (
      arith,
      uint32_le-put (length key) (key ++ rest) h,
      uint32_le-put (length val) val k,
      after_key ks key rest,
      drop-add (5 + length key) 4 (encode_tree_insert ks key val),
      length-append key rest,
      take-append key rest,
      take-all val,
    )
