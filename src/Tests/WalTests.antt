-- ===== src/Tests/WalTests.antt =====
-- The log: payloads, and two segments read back.
use mini_graph_db.Prelude.{
  ℕ, ◌+◌, ◌%◌, ◌^◌, List, [], ◌∷◌, ◌++◌, ◌≡◌, refl, arith, map, suc, length, take, drop, ◌≤◌,
}
use mini_graph_db.Prelude.Bytes.{Bytes}
use mini_graph_db.Prelude.Int.{negsuc}
use mini_graph_db.Storage.{ok, err, ◌>>=◌, eof}
use mini_graph_db.Wal.Record.{Record, size, valid_type, frame, frame_body, read_full_at}
use mini_graph_db.Wal.Record.Codec.{Fits}
use mini_graph_db.Wal.Reader.{open_reader, read_record, read_frame, parse_frame}
use mini_graph_db.Wal.Reader.Checked.{IsChecked, read_record-IsChecked}
use mini_graph_db.Wal.Words.{
  put_uint16_le, put_uint32_le, put_uint64_le, uint16_le, uint32_le, uint64_le,
}
use mini_graph_db.Wal.Reader.Walk.{IsWord, nexts}
use mini_graph_db.Wal.Reader.Log.{
  Chunk, sealed, current, span, records_of, IsLog, Follow, open_reader-nexts,
}

negsuc-Fits : Fits (negsuc 4)
unfolding Fits
negsuc-Fits = omega arith

-- A function into uint32 in the place of CRC-32.
abbrev sum : Bytes → ℕ
sum [] = 0
sum (b ∷ bs) = b + sum bs

abbrev checksum : Bytes → ℕ
checksum b = sum b % 2 ^ 32

checksum_word : IsWord checksum
unfolding IsWord
checksum_word b = omega arith

abbrev log : List Chunk
log =
    record {
      number = 1;
      first = 1;
      records =
          record { lsn = 1; txn_id = 7; kind = 4; payload = [] }
          ∷ record { lsn = 29; txn_id = 7; kind = 2; payload = 1 ∷ 2 ∷ [] }
          ∷ [];
      ending = sealed;
    }
    ∷ record {
      number = 2;
      first = 59;
      records = record { lsn = 59; txn_id = 7; kind = 5; payload = [] } ∷ [];
      ending = current (9 ∷ 9 ∷ []);
    }
    ∷ []

log-IsLog : IsLog log
unfolding IsLog Follow valid_type size
log-IsLog = ground arith

open_reader-nexts_example :
    (open_reader (map (span checksum) log) >>= λ r.
    ok (nexts checksum (suc (length (records_of log))) r))
    ≡ ok (map ok (records_of log) ++ err eof ∷ [])
open_reader-nexts_example = open_reader-nexts checksum checksum_word log log-IsLog

abbrev begin_record : Record
begin_record = record { lsn = 1; txn_id = 7; kind = 4; payload = [] }

begin_frame : read_record checksum (frame checksum begin_record) 0 28 1 ≡ ok (begin_record, 28)
unfolding read_record frame frame_body read_full_at put_uint64_le put_uint32_le put_uint16_le
    uint32_le read_frame parse_frame valid_type uint64_le uint16_le
begin_frame = refl

read_record-IsChecked_example :
    IsChecked checksum
      (take (size begin_record) (drop 0 (frame checksum begin_record)))
      1
      begin_record
    × (28 ≡ 0 + size begin_record)
    × (28 ≤ 28)
    × (28 ≤ length (frame checksum begin_record))
read_record-IsChecked_example =
    read_record-IsChecked checksum (frame checksum begin_record) 0 28 1 begin_record 28 begin_frame
