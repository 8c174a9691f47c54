-- ===== src/Wal/Reader/Log.antt =====
-- A log as it is written: segments of appended records, and the reader that opens them.
use mini_graph_db.Prelude.{
  ℕ, suc, ◌+◌, ◌^◌, ◌≤◌, ◌<◌, List, [], ◌∷◌, ◌++◌, ◌≡◌, ap, refl, ◌∙◌, sym, arith, length, drop,
  All, map, drop-add, length-append, append_assoc, append-nil,
}
use mini_graph_db.Prelude.Bytes.{Bytes}
use mini_graph_db.Storage.{ok, err, ◌>>=◌, eof}
use mini_graph_db.Wal.Words.{put_uint16_le, put_uint32_le, put_uint64_le}
use mini_graph_db.Wal.Record.{Record, size, frame, encode_header, append_record, header_size}
use mini_graph_db.Wal.Reader.{Rseg, Span, open_span, open_spans, reset, open_reader, rewind}
use mini_graph_db.Wal.Reader.Frames.{IsRecord, length-frame, drop-to}
use mini_graph_db.Wal.Reader.Walk.{IsWord, IsLeft, is_over, is_next, is_here, nexts, nexts_lem}

-- The records that follow one another from an LSN on, and the LSN after them.
unfoldable pub Follow : ℕ → List Record → Type 0
Follow lsn [] = Unit {0}
Follow lsn (r ∷ rs) =
    IsRecord r × (r.lsn ≡ lsn) × (lsn + size r < 2 ^ 64) × Follow (lsn + size r) rs

unfoldable pub end_of : ℕ → List Record → ℕ
end_of lsn [] = lsn
end_of lsn (r ∷ rs) = end_of (lsn + size r) rs

-- A segment of the log: the header, then the frames, then what `Reader` does not read. A sealed segment
-- is read to the end of its file; of the current one only the synced part is, and bytes that are not
-- synced may follow it.
pub data Ending : Type 0 where
  sealed : Ending
  current : Bytes → Ending

pub record Chunk : Type 0 where
  pub number : ℕ
  pub first : ℕ
  pub records : List Record
  pub ending : Ending

abbrev pub behind : Ending → Bytes
behind sealed = []
behind (current tail) = tail

-- `openSpan` is given limit 0 for a sealed segment, and `syncedOff` for the current one.
abbrev pub limit_of : Ending → ℕ → ℕ
limit_of sealed synced = 0
limit_of (current tail) synced = synced

unfoldable pub records_of : List Chunk → List Record
records_of [] = []
records_of (c ∷ log) = c.records ++ records_of log

-- Each segment's records follow one another from its first LSN on.
unfoldable pub IsLog : List Chunk → Type 0
IsLog log = All (λ c. Follow c.first c.records) log

module _ (checksum : Bytes → ℕ) where
  -- The frames of the records, one behind the other.
  unfoldable pub frames : List Record → Bytes
  frames [] = []
  frames (r ∷ rs) = frame checksum r ++ frames rs

  unfoldable pub append_all : Bytes → List Record → Bytes
  append_all dst [] = dst
  append_all dst (r ∷ rs) = append_all (append_record checksum dst r) rs

  append_all_lem : (dst : Bytes) (rs : List Record) → append_all dst rs ≡ dst ++ frames rs
  unfolding append_all frames append_record
  append_all_lem dst [] = sym (append-nil dst)
  append_all_lem dst (r ∷ rs) =
      append_all_lem (append_record checksum dst r) rs
      ∙ append_assoc dst (frame checksum r) (frames rs)

  -- A segment whose file ends with the frames of its records.
  IsLeft-frames :
      (rs rs' : List Record) (tail : Bytes) (off : ℕ) (seg : Rseg) (segs : List Rseg)
      → drop off seg.f ≡ frames rs ++ tail
      → off + length (frames rs) ≡ seg.limit
      → seg.limit ≤ length seg.f
      → Follow seg.pos rs
      → end_of seg.pos rs ≡ seg.end
      → IsLeft checksum header_size segs rs'
      → IsLeft checksum off (seg ∷ segs) (rs ++ rs')
  unfolding Follow end_of frames size
  IsLeft-frames [] rs' tail off seg segs at whole inside follow met left =
      is_next (omega (arith, whole)) met left
  IsLeft-frames (r ∷ rs) rs' tail off seg segs at whole inside follow met left =
      let size_r = length-frame checksum r in
      let seg' : Rseg = record seg { pos = r.lsn + size r } in
      let first : drop off seg.f ≡ frame checksum r ++ (frames rs ++ tail) =
        at ∙ append_assoc (frame checksum r) (frames rs) tail in
      let at' : drop (off + size r) seg.f ≡ frames rs ++ tail =
        drop-add off (size r) seg.f
        ∙ ap (drop (size r)) first
        ∙ drop-to (size r) (frame checksum r) (frames rs ++ tail) (sym size_r) in
      let both = length-append (frame checksum r) (frames rs) in
      is_here (frames rs ++ tail) follow.0 first (omega (arith, whole, both, size_r)) inside
        follow.1 (omega (arith, follow.1, follow.2))
        (IsLeft-frames rs rs' tail (off + size r) seg' segs at' (omega (arith, whole, both, size_r))
          inside (rw follow.1 follow.3) (ap (λ n. end_of (n + size r) rs) follow.1 ∙ met) left)

  -- The part of a segment that is read.
  abbrev pub synced : Chunk → Bytes
  synced c = append_all (encode_header checksum c.number c.first) c.records

  unfoldable pub span : Chunk → Span
  unfolding append_all
  span c = record {
    file = synced c ++ behind c.ending;
    first = c.first;
    end = end_of c.first c.records;
    limit = limit_of c.ending (length (synced c));
  }

  abbrev pub rseg : Chunk → Rseg
  rseg c = record {
    f = synced c ++ behind c.ending;
    first = c.first;
    end = end_of c.first c.records;
    pos = c.first;
    limit = length (synced c);
  }

  length-encode_header : (num first : ℕ) → length (encode_header checksum num first) ≡ 28
  unfolding encode_header put_uint16_le put_uint32_le put_uint64_le
  length-encode_header num first = refl

  length-synced : (c : Chunk) → length (synced c) ≡ 28 + length (frames c.records)
  length-synced c =
      let b = encode_header checksum c.number c.first in
      ground (
        arith,
        ap length (append_all_lem b c.records),
        length-append b (frames c.records),
        length-encode_header c.number c.first,
      )

  open_span-ending :
      (f tail : Bytes) (first end : ℕ) (e : Ending)
      → behind e ≡ tail
      → 28 ≤ length f
      → open_span (f ++ tail) first end (limit_of e (length f))
        ≡ ok (record { f = f ++ tail; first = first; end = end; pos = first; limit = length f })
  unfolding open_span
  open_span-ending f tail first end sealed same long =
      ground (arith, length-append f tail, ap length same)
  open_span-ending f tail first end (current t) same long = ground (arith, length-append f tail)

  open_span_lem :
      (c : Chunk) → open_span (span c).file (span c).first (span c).end (span c).limit ≡ ok (rseg c)
  unfolding span
  open_span_lem c =
      open_span-ending (synced c) (behind c.ending) c.first (end_of c.first c.records) c.ending refl
        (omega (arith, length-synced c))

  open_spans_lem : (log : List Chunk) → open_spans (map span log) ≡ ok (map rseg log)
  unfolding open_spans span
  open_spans_lem [] = refl
  open_spans_lem (c ∷ log) = ground (arith, open_span_lem c, open_spans_lem log)

  rewind_lem : (log : List Chunk) → map rewind (map rseg log) ≡ map rseg log
  rewind_lem [] = refl
  rewind_lem (c ∷ log) = ap (λ l. rseg c ∷ l) (rewind_lem log)

  IsLeft-log :
      (log : List Chunk) → IsLog log → IsLeft checksum header_size (map rseg log) (records_of log)
  unfolding IsLog records_of
  IsLeft-log [] all = is_over
  IsLeft-log (c ∷ log) all =
      let b = encode_header checksum c.number c.first in
      let tail = behind c.ending in
      let at : synced c ++ tail ≡ b ++ (frames c.records ++ tail) =
        ap (λ f. f ++ tail) (append_all_lem b c.records) ∙ append_assoc b (frames c.records) tail in
      IsLeft-frames c.records (records_of log) tail header_size (rseg c) (map rseg log)
        (ap (drop 28) at
          ∙ drop-to 28 b (frames c.records ++ tail) (sym (length-encode_header c.number c.first)))
        (sym (length-synced c)) (omega (arith, length-append (synced c) tail)) all.0 refl
        (IsLeft-log log all.1)

  -- Reading segments that each hold a header and the frames of valid records, which follow one another
  -- from the segment's first LSN on, within 64 bits: sealed segments to the end of their files, and
  -- segments whose limit is the length of the synced part, whatever bytes stand behind it. The calls of
  -- `Next` give every record of every segment in order, and then `io.EOF`.
  pub open_reader-nexts :
      IsWord checksum
      → (log : List Chunk) → IsLog log
      → (open_reader (map span log) >>= λ r. ok (nexts checksum (suc (length (records_of log))) r))
        ≡ ok (map ok (records_of log) ++ err eof ∷ [])
  unfolding open_reader reset
  open_reader-nexts word log all = rw (open_spans_lem log) (
      ap ok (
        nexts_lem checksum word (records_of log) _ (record {
          is_open = refl;
          no_error = refl;
          no_record = refl;
          left = rw (rewind_lem log) (IsLeft-log log all);
        })))
