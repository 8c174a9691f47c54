-- ===== src/Wal/Reader.antt =====
-- wal/reader.go: the reader over the synced part of the log's segments. A file is its bytes, which
-- do not change while the reader is open.
pub mod Frames
pub mod Walk
pub mod Checked
pub mod Log
use mini_graph_db.Prelude.{
  ℕ, zero, suc, ◌+◌, ◌-◌, ◌%◌, ◌^◌, Bool, true, false, not, Option, none, some, List, [], ◌∷◌,
  if◌then◌else◌, length, drop, take, ltb, leb, ◌==◌, nat_eq, ◌||◌, map,
}
use mini_graph_db.Prelude.Bytes.{Bytes}
use mini_graph_db.Storage.{Error, Result, ok, err, ◌>>=◌, corruption, eof, wal_closed}
use mini_graph_db.Wal.Words.{uint16_le, uint32_le, uint64_le}
use mini_graph_db.Wal.Record.{
  Record, size, valid_type, max_payload, header_size, record_header, crc_size, read_full_at,
}

-- `rseg`.
pub record Rseg : Type 0 where
  pub f : Bytes
  pub first : ℕ
  pub end : ℕ
  pub pos : ℕ
  pub limit : ℕ

pub record Reader : Type 0 where
  pub segs : List Rseg
  pub si : ℕ
  pub off : ℕ
  pub held : Option Record
  pub failed : Option Error
  pub closed : Bool

-- `openSpan` on a file that opens.
unfoldable pub open_span : Bytes → ℕ → ℕ → ℕ → Result Rseg
open_span f first end limit =
    let limit' = if limit == 0 || ltb (length f) limit then length f else limit in
    if ltb limit' header_size
    then err corruption
    else ok (record { f = f; first = first; end = end; pos = first; limit = limit' })

abbrev pub rewind : Rseg → Rseg
rewind s = record s { pos = s.first }

unfoldable pub reset : Reader → Reader
reset r = record r {
  si = 0;
  off = header_size;
  held = none;
  failed = none;
  segs = map rewind r.segs;
}

-- A segment as the log lists it: its file, `First`, `End` and the limit (0: to the end of the file).
pub record Span : Type 0 where
  pub file : Bytes
  pub first : ℕ
  pub end : ℕ
  pub limit : ℕ

unfoldable pub open_spans : List Span → Result (List Rseg)
open_spans [] = ok []
open_spans (s ∷ spans) = do
  seg ← open_span s.file s.first s.end s.limit
  segs ← open_spans spans
  ok (seg ∷ segs)

-- `Log.Reader`.
unfoldable pub open_reader : List Span → Result Reader
unfolding open_spans reset
open_reader spans = do
  segs ← open_spans spans
  ok (reset (record { segs = segs; si = 0; off = 0; held = none; failed = none; closed = false }))

-- `&r.segs[r.si]` written through.
abbrev pub set_at : ℕ → Rseg → List Rseg → List Rseg
set_at i s [] = []
set_at zero s (x ∷ xs) = s ∷ xs
set_at (suc i) s (x ∷ xs) = x ∷ set_at i s xs

module _ (checksum : Bytes → ℕ) where
  -- `readRecord` from the checksum test on.
  -- `&rec` of the frame, and the tests on it.
  abbrev frame_record : Bytes → ℕ → Record
  frame_record buf pay_len = record {
    lsn = uint64_le buf;
    txn_id = uint64_le (drop 8 buf);
    kind = uint16_le (drop 16 buf);
    payload = take pay_len (drop record_header buf);
  }

  abbrev expected : Record → ℕ → Result Record
  expected rec expect =
      if not (rec.lsn == expect)
      then err corruption
      else if not (valid_type rec.kind)
      then err corruption
      else ok rec

  unfoldable pub parse_frame : Bytes → ℕ → ℕ → Result Record
  parse_frame buf pay_len expect =
      let body = length buf - crc_size in
      if not (checksum (take body buf) == uint32_le (drop body buf))
      then err corruption
      else expected (frame_record buf pay_len) expect

  -- `readRecord` from the payload length on.
  unfoldable pub read_frame : Bytes → ℕ → ℕ → ℕ → ℕ → Result (Record × ℕ)
  read_frame f off limit expect pay_len =
      let total = record_header + pay_len + crc_size in
      if ltb max_payload pay_len
      then err corruption
      else if ltb limit (off + total)
      then err corruption
      else (do
        buf ← read_full_at f total off
        rec ← parse_frame buf pay_len expect
        ok (rec, off + total))

  unfoldable pub read_record : Bytes → ℕ → ℕ → ℕ → Result (Record × ℕ)
  unfolding read_frame
  read_record f off limit expect = if ltb limit (off + record_header) then err corruption else (do
    hdr ← read_full_at f record_header off
    read_frame f off limit expect (uint32_le (drop 20 hdr)))

  abbrev pub taken : Reader → Rseg → Result (Record × ℕ) → Result Record × Reader
  taken r seg (err e) = (err e, record r { failed = some e })
  taken r seg (ok (rec, next)) = (
    ok rec,
    record r {
      off = next;
      segs = set_at r.si (record seg { pos = (rec.lsn + size rec) % 2 ^ 64 }) r.segs;
    },
  )

  -- The loop of `Next` over the segments from `si` on.
  unfoldable pub next_from : Reader → List Rseg → Result Record × Reader
  next_from r [] = (err eof, r)
  next_from r (seg ∷ rest) =
      if leb seg.limit r.off
      then (if not (seg.pos == seg.end)
          then (err corruption, record r { failed = some corruption })
          else next_from (record r { si = suc r.si; off = header_size }) rest)
      else taken r seg (read_record seg.f r.off seg.limit seg.pos)

  abbrev pub advance : Reader → Option Error → Option Record → Result Record × Reader
  advance r (some e) h = (err e, r)
  advance r none (some rec) = (ok rec, record r { held = none })
  advance r none none = next_from r (drop r.si r.segs)

  unfoldable pub next : Reader → Result Record × Reader
  unfolding next_from
  next r = if r.closed then (err wal_closed, r) else advance r r.failed r.held

unfoldable pub close : Reader → Reader
close r = record r { closed = true }
