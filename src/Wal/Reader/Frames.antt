-- ===== src/Wal/Reader/Frames.antt =====
-- One frame: `readRecord` gives back what `appendRecord` wrote.
use mini_graph_db.Prelude.{
  ℕ, ◌+◌, ◌-◌, ◌^◌, ◌≤◌, ◌<◌, true, ◌++◌, ◌≡◌, arith, length, take, drop, length-append,
  take-append, drop-append,
}
use mini_graph_db.Prelude.Bytes.{Bytes}
use mini_graph_db.Storage.{ok}
use mini_graph_db.Wal.Words.{
  put_uint16_le, put_uint32_le, put_uint64_le, uint16_le, uint32_le, uint64_le,
}
use mini_graph_db.Wal.Record.{
  Record, size, valid_type, max_payload, frame_body, frame, read_full_at,
}
use mini_graph_db.Wal.Reader.{parse_frame, read_frame, read_record}

-- What `Append` accepts, at machine widths.
pub record IsRecord (r : Record) : Type 0 where
  pub lsn_fits : r.lsn < 2 ^ 64
  pub txn_fits : r.txn_id < 2 ^ 64
  pub kind_known : valid_type r.kind ≡ true
  pub payload_fits : length r.payload ≤ max_payload

length-frame_body : (r : Record) → length (frame_body r) ≡ 24 + length r.payload
unfolding frame_body put_uint64_le put_uint32_le put_uint16_le
length-frame_body r = omega arith

take-to : (n : ℕ) (xs ys : Bytes) → n ≡ length xs → take n (xs ++ ys) ≡ xs
take-to n xs ys h = rw h (take-append xs ys)

pub drop-to : (n : ℕ) (xs ys : Bytes) → n ≡ length xs → drop n (xs ++ ys) ≡ ys
drop-to n xs ys h = rw h (drop-append xs ys)

crc_read : (n : ℕ) → n < 2 ^ 32 → uint32_le (put_uint32_le n) ≡ n
unfolding uint32_le put_uint32_le
crc_read n h = omega arith

module _ (checksum : Bytes → ℕ) where
  pub length-frame : (r : Record) → length (frame checksum r) ≡ size r
  unfolding frame size put_uint32_le
  length-frame r = ground (
    arith,
    length-append (frame_body r) (put_uint32_le (checksum (frame_body r))),
    length-frame_body r,
  )

  lsn-frame : (r : Record) → IsRecord r → uint64_le (frame checksum r) ≡ r.lsn
  unfolding frame frame_body put_uint64_le put_uint32_le put_uint16_le uint64_le
  lsn-frame r is = omega (arith, is.lsn_fits)

  txn_id-frame : (r : Record) → IsRecord r → uint64_le (drop 8 (frame checksum r)) ≡ r.txn_id
  unfolding frame frame_body put_uint64_le put_uint32_le put_uint16_le uint64_le
  txn_id-frame r is = omega (arith, is.txn_fits)

  kind-frame : (r : Record) → IsRecord r → uint16_le (drop 16 (frame checksum r)) ≡ r.kind
  unfolding frame frame_body put_uint64_le put_uint32_le put_uint16_le uint16_le valid_type
  kind-frame r is = ground (arith, is.kind_known)

  payload-frame : (r : Record) → take (length r.payload) (drop 24 (frame checksum r)) ≡ r.payload
  unfolding frame frame_body put_uint64_le put_uint32_le put_uint16_le
  payload-frame r = take-append r.payload _

  crc-frame :
      (r : Record)
      → ((b : Bytes) → checksum b < 2 ^ 32)
      → checksum (take (24 + length r.payload) (frame checksum r))
        ≡ uint32_le (drop (24 + length r.payload) (frame checksum r))
  unfolding frame
  crc-frame r bounded =
      let crc = put_uint32_le (checksum (frame_body r)) in
      ground (
        arith,
        length-frame_body r,
        take-to (24 + length r.payload) (frame_body r) crc,
        drop-to (24 + length r.payload) (frame_body r) crc,
        crc_read (checksum (frame_body r)) (bounded (frame_body r)),
      )

  parse_frame-frame :
      (r : Record)
      → ((b : Bytes) → checksum b < 2 ^ 32)
      → IsRecord r
      → parse_frame checksum (frame checksum r) (length r.payload) r.lsn ≡ ok r
  unfolding parse_frame size
  parse_frame-frame r bounded is =
      let body : length (frame checksum r) - 4 ≡ 24 + length r.payload =
        omega (arith, length-frame r) in
      ground (
        arith,
        body,
        crc-frame r bounded,
        lsn-frame r is,
        txn_id-frame r is,
        kind-frame r is,
        payload-frame r,
        is.kind_known,
      )

  read_frame-frame :
      (f rest : Bytes) (off limit : ℕ) (r : Record)
      → ((b : Bytes) → checksum b < 2 ^ 32)
      → IsRecord r
      → drop off f ≡ frame checksum r ++ rest
      → off + size r ≤ limit
      → limit ≤ length f
      → read_frame checksum f off limit r.lsn (length r.payload) ≡ ok (r, off + size r)
  unfolding read_frame read_full_at size
  read_frame-frame f rest off limit r bounded is at inside whole = ground (
    arith,
    at,
    parse_frame-frame r bounded is,
    length-frame r,
    is.payload_fits,
    take-to (24 + length r.payload + 4) (frame checksum r) rest,
  )

  header_length :
      (f rest : Bytes) (off : ℕ) (r : Record)
      → IsRecord r
      → drop off f ≡ frame checksum r ++ rest
      → uint32_le (drop 20 (take 24 (drop off f))) ≡ length r.payload
  unfolding frame frame_body put_uint64_le put_uint32_le put_uint16_le uint32_le
  header_length f rest off r is at = rw at (omega (arith, is.payload_fits))

  -- A frame in a file, within the limit, is read back as the record that was appended.
  pub read_record-frame :
      (f rest : Bytes) (off limit : ℕ) (r : Record)
      → ((b : Bytes) → checksum b < 2 ^ 32)
      → IsRecord r
      → drop off f ≡ frame checksum r ++ rest
      → off + size r ≤ limit
      → limit ≤ length f
      → read_record checksum f off limit r.lsn ≡ ok (r, off + size r)
  unfolding read_record read_full_at size
  read_record-frame f rest off limit r bounded is at inside whole = ground (
    arith,
    header_length f rest off r is at,
    read_frame-frame f rest off limit r bounded is at inside whole,
  )
