-- ===== src/Wal/Reader/Checked.antt =====
-- What `readRecord` guarantees of any file, damaged or not.
use mini_graph_db.Prelude.{
  ℕ, zero, suc, ◌+◌, ◌-◌, ◌≤◌, true, [], ◌∷◌, ◌≡◌, refl, ap, ◌∙◌, inl, inr, arith, length, take,
  drop, length-drop,
}
use mini_graph_db.Prelude.Bytes.{Bytes}
use mini_graph_db.Storage.{ok, Result-cases}
use mini_graph_db.Wal.Words.{uint32_le}
use mini_graph_db.Wal.Record.{Record, size, valid_type, read_full_at}
use mini_graph_db.Wal.Reader.{parse_frame, read_frame, read_record}

length-take : (n : ℕ) (xs : Bytes) → n ≤ length xs → length (take n xs) ≡ n
length-take zero xs h = refl
length-take (suc n) [] h = ground arith
length-take (suc n) (x ∷ xs) h = omega (arith, length-take n xs (omega arith))

module _ (checksum : Bytes → ℕ) where
  -- A frame's bytes agree with their checksum, and the record is the one that was looked for.
  unfoldable pub IsChecked : Bytes → ℕ → Record → Type 0
  IsChecked buf expect r =
      (r.lsn ≡ expect)
      × (valid_type r.kind ≡ true)
      × (checksum (take (length buf - 4) buf) ≡ uint32_le (drop (length buf - 4) buf))

  parse_frame-IsChecked :
      (buf : Bytes) (pay_len expect : ℕ) (r : Record)
      → parse_frame checksum buf pay_len expect ≡ ok r
      → IsChecked buf expect r × (r.payload ≡ take pay_len (drop 24 buf))
  unfolding parse_frame IsChecked
  parse_frame-IsChecked buf pay_len expect r h =
      ((ground arith, ground arith, ground arith), ground arith)

  -- The bytes that `readRecord` takes for a frame.
  abbrev bytes_at : Bytes → ℕ → ℕ → Bytes
  bytes_at f off pay_len = take (24 + pay_len + 4) (drop off f)

  read_frame-parse_frame :
      (f : Bytes) (off limit expect pay_len : ℕ) (r : Record) (next : ℕ)
      → read_frame checksum f off limit expect pay_len ≡ ok (r, next)
      → (parse_frame checksum (bytes_at f off pay_len) pay_len expect ≡ ok r)
        × (next ≡ off + (24 + pay_len + 4))
        × (next ≤ limit)
        × (next ≤ length f)
  unfolding read_frame read_full_at
  read_frame-parse_frame f off limit expect pay_len r next h =
      elim (Result-cases (parse_frame checksum (bytes_at f off pay_len) pay_len expect)) [
        | inl (r', e) ↦ (ground (arith, e), ground (arith, e), ground (arith, e), ground (arith, e))
        | inr (e', q) ↦ (ground (arith, q), ground (arith, q), ground (arith, q), ground (arith, q))
      ]

  length-payload :
      (f : Bytes) (off pay_len : ℕ)
      → off + (24 + pay_len + 4) ≤ length f
      → length (take pay_len (drop 24 (bytes_at f off pay_len))) ≡ pay_len
  length-payload f off pay_len inside =
      let whole = length-take (24 + pay_len + 4) (drop off f) (omega (arith, length-drop off f)) in
      length-take pay_len (drop 24 (bytes_at f off pay_len))
        (omega (arith, whole, length-drop 24 (bytes_at f off pay_len)))

  read_frame-IsChecked :
      (f : Bytes) (off limit expect pay_len : ℕ) (r : Record) (next : ℕ)
      → read_frame checksum f off limit expect pay_len ≡ ok (r, next)
      → IsChecked (take (size r) (drop off f)) expect r
        × (next ≡ off + size r)
        × (next ≤ limit)
        × (next ≤ length f)
  unfolding size
  read_frame-IsChecked f off limit expect pay_len r next h =
      let p = read_frame-parse_frame f off limit expect pay_len r next h in
      let c = parse_frame-IsChecked (bytes_at f off pay_len) pay_len expect r p.0 in
      let n : length r.payload ≡ pay_len =
        ap length c.1 ∙ length-payload f off pay_len (omega (arith, p.1, p.3)) in
      rw n (c.0, p.1, p.2, p.3)

  read_record-read_frame :
      (f : Bytes) (off limit expect : ℕ) (r : Record) (next : ℕ)
      → read_record checksum f off limit expect ≡ ok (r, next)
      → (pay_len : ℕ) × (read_frame checksum f off limit expect pay_len ≡ ok (r, next))
  unfolding read_record read_full_at
  read_record-read_frame f off limit expect r next h =
      (uint32_le (drop 20 (take 24 (drop off f))), ground arith)

  -- A record that `readRecord` returns has the LSN that was looked for and a known type, lies within
  -- the file and the limit, and its frame agrees with the checksum behind it, whatever the file
  -- holds.
  pub read_record-IsChecked :
      (f : Bytes) (off limit expect : ℕ) (r : Record) (next : ℕ)
      → read_record checksum f off limit expect ≡ ok (r, next)
      → IsChecked (take (size r) (drop off f)) expect r
        × (next ≡ off + size r)
        × (next ≤ limit)
        × (next ≤ length f)
  read_record-IsChecked f off limit expect r next h =
      let q = read_record-read_frame f off limit expect r next h in
      read_frame-IsChecked f off limit expect q.0 r next q.1
