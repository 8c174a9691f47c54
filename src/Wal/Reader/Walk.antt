-- ===== src/Wal/Reader/Walk.antt =====
-- The reader over a log: `Next` gives every record that was appended, in order, then `io.EOF`.
use mini_graph_db.Prelude.{
  ℕ, zero, suc, ◌+◌, ◌^◌, ◌≤◌, ◌<◌, false, none, List, [], ◌∷◌, ◌++◌, ◌≡◌, ap, refl, arith, length,
  drop, map,
}
use mini_graph_db.Prelude.Bytes.{Bytes}
use mini_graph_db.Storage.{Result, ok, err, eof}
use mini_graph_db.Wal.Record.{Record, size, frame, header_size}
use mini_graph_db.Wal.Reader.{Rseg, Reader, set_at, next_from, next}
use mini_graph_db.Wal.Reader.Frames.{IsRecord, read_record-frame}

drop-set_at :
    (i : ℕ) (segs rest : List Rseg) (s t : Rseg)
    → drop i segs ≡ s ∷ rest
    → drop i (set_at i t segs) ≡ t ∷ rest
drop-set_at zero [] rest s t h = cc
drop-set_at (suc i) [] rest s t h = cc
drop-set_at zero (x ∷ xs) rest s t h = cc
drop-set_at (suc i) (x ∷ xs) rest s t h = drop-set_at i xs rest s t h

drop-suc :
    (i : ℕ) (segs rest : List Rseg) (s : Rseg) → drop i segs ≡ s ∷ rest → drop (suc i) segs ≡ rest
drop-suc zero [] rest s h = cc
drop-suc (suc i) [] rest s h = cc
drop-suc zero (x ∷ xs) rest s h = cc
drop-suc (suc i) (x ∷ xs) rest s h = drop-suc i xs rest s h

module _ (checksum : Bytes → ℕ) where
  -- A CRC-32 is a uint32.
  unfoldable pub IsWord : Type 0
  IsWord = (b : Bytes) → checksum b < 2 ^ 32

  -- The records that are left to read from an offset of the first segment on.
  pub data IsLeft : ℕ → List Rseg → List Record → Type 0 where
    is_over : {off : ℕ} → IsLeft off [] []
    is_next :
        {off : ℕ} {seg : Rseg} {segs : List Rseg} {rs : List Record}
        → seg.limit ≤ off
        → seg.pos ≡ seg.end
        → IsLeft header_size segs rs
        → IsLeft off (seg ∷ segs) rs
    is_here :
        {off : ℕ} {seg : Rseg} {segs : List Rseg} {r : Record} {rs : List Record} (rest : Bytes)
        → IsRecord r
        → drop off seg.f ≡ frame checksum r ++ rest
        → off + size r ≤ seg.limit
        → seg.limit ≤ length seg.f
        → r.lsn ≡ seg.pos
        → r.lsn + size r < 2 ^ 64
        → IsLeft (off + size r) (record seg { pos = r.lsn + size r } ∷ segs) rs
        → IsLeft off (seg ∷ segs) (r ∷ rs)

  pub record IsReady (r : Reader) (rs : List Record) : Type 0 where
    pub is_open : r.closed ≡ false
    pub no_error : r.failed ≡ none
    pub no_record : r.held ≡ none
    pub left : IsLeft r.off (drop r.si r.segs) rs

  abbrev reply : List Record → Result Record
  reply [] = err eof
  reply (r ∷ rs) = ok r

  abbrev others : List Record → List Record
  others [] = []
  others (r ∷ rs) = rs

  -- What one pass of the loop of `Next` leaves behind.
  Passed : Reader → List Rseg → List Record → Type 0
  Passed r segs rs =
      (r' : Reader) × (next_from checksum r segs ≡ (reply rs, r')) × IsReady r' (others rs)

  next_from_lem :
      IsWord
      → (r : Reader) (segs : List Rseg) (rs : List Record) → IsReady r rs
      → drop r.si r.segs ≡ segs
      → IsLeft r.off segs rs
      → Passed r segs rs
  unfolding next_from Passed size IsWord
  next_from_lem word r [] [] ready at is_over = (r, refl, ready)
  next_from_lem word r [] (rec ∷ rs) ready at left = elim left [ ]
  next_from_lem word r (seg ∷ segs) rs ready at (is_next over met left) =
      let turned : Reader = record r { si = suc r.si; off = header_size } in
      let at' = drop-suc r.si r.segs segs seg at in
      let p =
        next_from_lem word turned segs rs
          (record {
            is_open = ready.is_open;
            no_error = ready.no_error;
            no_record = ready.no_record;
            left = rw at' left;
          })
          at' left in
      (p.0, ground (arith, over, met, p.1), p.2)
  next_from_lem word r (seg ∷ segs) (rec ∷ rs) ready at
        (is_here rest is frame_at inside whole lsn fits left) =
      let seg' : Rseg = record seg { pos = rec.lsn + size rec } in
      let read =
        read_record-frame checksum seg.f rest r.off seg.limit rec word is frame_at inside whole in
      (
        record r { off = r.off + size rec; segs = set_at r.si seg' r.segs },
        ground (arith, inside, lsn, fits, read),
        record {
          is_open = ready.is_open;
          no_error = ready.no_error;
          no_record = ready.no_record;
          left = rw (drop-set_at r.si r.segs segs seg seg' at) left;
        },
      )

  next-IsReady :
      IsWord
      → (r : Reader) (rs : List Record) → IsReady r rs
      → (r' : Reader) × (next checksum r ≡ (reply rs, r')) × IsReady r' (others rs)
  unfolding next Passed
  next-IsReady word r rs ready =
      let p = next_from_lem word r (drop r.si r.segs) rs ready refl ready.left in
      (p.0, ground (arith, ready.is_open, ready.no_error, ready.no_record, p.1), p.2)

  -- The replies of the next `n` calls.
  unfoldable pub nexts : ℕ → Reader → List (Result Record)
  nexts zero r = []
  nexts (suc n) r = let reply = next checksum r in reply.0 ∷ nexts n reply.1

  pub nexts_lem :
      IsWord
      → (rs : List Record) (r : Reader) → IsReady r rs
      → nexts (suc (length rs)) r ≡ map ok rs ++ err eof ∷ []
  unfolding nexts
  nexts_lem word [] r ready = let p = next-IsReady word r [] ready in rw p.1 refl
  nexts_lem word (rec ∷ rs) r ready =
      let p = next-IsReady word r (rec ∷ rs) ready in
      rw p.1 (ap (λ l. ok rec ∷ l) (nexts_lem word rs p.0 p.2))
