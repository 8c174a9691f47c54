-- ===== src/Value/Record/RoundTrip.antt =====
-- internal/value/record.go: `DecodeRecord` reverses `EncodeRecord`.
use mini_graph_db.Prelude.{ℕ, zero, suc, ◌+◌, ◌*◌, ◌^◌, ◌≤◌, ◌<◌, ◌≡◌, refl, ap, sym, ◌∙◌, arith}
use mini_graph_db.Prelude.{[], ◌∷◌, ◌++◌, length}
use mini_graph_db.Prelude.{append_assoc, append-nil, length-append}
use mini_graph_db.Prelude.{Ordering}
use mini_graph_db.Prelude.Bytes.{Bytes, compare_bytes, compare_bytes-flip}
use mini_graph_db.Value.{kind_list, kind_map, put_entry, tag, scalar_kind}
use mini_graph_db.Value.{Scalar, null}
use mini_graph_db.Value.{Value, Values, nil, cons, Entries, end, entry, scalar, list, map}
use mini_graph_db.Value.Uvarint.{put_uvarint, put_groups, read_uvarint, read_uvarint-put_uvarint}
use mini_graph_db.Value.Record.{
  done, ◌>>=◌, or_truncated, read_blob, decode_scalar, by_kind, kind_of_tag, decode, decode_list,
  decode_map, decode_record, all_read, put_blob, encode_scalar, encode, encode_list, encode_map,
  encode_record, count_values, count_entries,
}
use mini_graph_db.Value.Record.Parts.{FitsScalar, blob-read, scalar-read}

-- Every key of the entries is above `key`.
abbrev pub AllAbove : Bytes → Entries → Type 0
AllAbove key end = Unit
AllAbove key (entry k v es) = (compare_bytes key k ≡ Ordering.lt) × AllAbove key es

-- The keys of a map ascend, as `Map` sorts them.
abbrev pub IsAscending : Entries → Type 0
IsAscending end = Unit
IsAscending (entry k v es) = AllAbove k es × IsAscending es

-- A value that the fields of the struct can hold; no count reaches 2 ^ 64, and the keys of maps ascend.
abbrev mutual
  pub Fits : Value → Type 0
  Fits (scalar s) = FitsScalar s
  Fits (list xs) = (count_values xs < 2 ^ 64) × FitsList xs
  Fits (map es) = (count_entries es < 2 ^ 64) × IsAscending es × FitsMap es

  pub FitsList : Values → Type 0
  FitsList nil = Unit
  FitsList (cons x xs) = Fits x × FitsList xs

  pub FitsMap : Entries → Type 0
  FitsMap end = Unit
  FitsMap (entry k v es) = (length k < 2 ^ 64) × Fits v × FitsMap es

abbrev join : Entries → Entries → Entries
join end fs = fs
join (entry k v es) fs = entry k v (join es fs)

join_assoc :
    (m : Entries) (k : Bytes) (v : Value) (es : Entries)
    → join (join m (entry k v end)) es ≡ join m (entry k v es)
join_assoc end k v es = refl
join_assoc (entry j w m) k v es = ap (entry j w) (join_assoc m k v es)

join-end : (m : Entries) → join m end ≡ m
join-end end = refl
join-end (entry k v m) = ap (entry k v) (join-end m)

above-join :
    (j : Bytes) (m : Entries) (key : Bytes) (val : Value) (es : Entries)
    → AllAbove j (join m (entry key val es))
    → compare_bytes j key ≡ Ordering.lt
above-join j end key val es h = h.0
above-join j (entry k v m) key val es h = above-join j m key val es h.1

-- An entry whose key is above all others goes last.
put_entry-last :
    (m : Entries) (key : Bytes) (val : Value) (es : Entries)
    → IsAscending (join m (entry key val es))
    → put_entry key val m ≡ join m (entry key val end)
unfolding put_entry
put_entry-last end key val es h = refl
put_entry-last (entry k v m) key val es h = ground (
  arith,
  compare_bytes-flip k key,
  above-join k m key val es h.0,
  put_entry-last m key val es h.1,
)

decode-tag-scalar :
    (s : Scalar) (fuel : ℕ) (b : Bytes)
    → decode (suc fuel) (tag (scalar_kind s) ∷ b) ≡ decode_scalar (scalar_kind s) b
unfolding decode by_kind kind_of_tag
decode-tag-scalar null fuel b = refl
decode-tag-scalar _ fuel b = refl

decode-tag-list :
    (fuel : ℕ) (b : Bytes)
    → decode (suc fuel) (tag kind_list ∷ b) ≡ (do
      (n, r) ← or_truncated (read_uvarint b)
      (xs, rest) ← decode_list fuel n r
      done (list xs, rest))
unfolding decode by_kind kind_of_tag
decode-tag-list fuel b = refl

decode-tag-map :
    (fuel : ℕ) (b : Bytes)
    → decode (suc fuel) (tag kind_map ∷ b) ≡ (do
      (n, r) ← or_truncated (read_uvarint b)
      (es, rest) ← decode_map fuel n end r
      done (map es, rest))
unfolding decode by_kind kind_of_tag
decode-tag-map fuel b = refl

encode-length : (v : Value) → 1 ≤ length (encode v)
unfolding encode
encode-length (scalar s) = omega arith
encode-length (list xs) = omega arith
encode-length (map es) = omega arith

length-uvarint : (n : ℕ) → 1 ≤ length (put_uvarint n)
unfolding put_uvarint put_groups
length-uvarint n = ground arith

list-step :
    (fuel n : ℕ) (b : Bytes)
    → decode_list (suc fuel) (suc n) b
      ≡ (do (el, r) ← decode fuel b; (xs, rest) ← decode_list fuel n r; done (cons el xs, rest))
unfolding decode_list
list-step fuel n b = refl

map-step :
    (fuel n : ℕ) (m : Entries) (b : Bytes)
    → decode_map (suc fuel) (suc n) m b ≡ (do
      (key, r) ← read_blob b
      (val, s) ← decode fuel r
      decode_map fuel n (put_entry key val m) s)
unfolding decode_map
map-step fuel n m b = refl

nil-read : (fuel : ℕ) (b : Bytes) → 1 ≤ fuel → decode_list fuel 0 b ≡ done (nil, b)
unfolding decode_list
nil-read zero b h = absurd (omega (arith, h))
nil-read (suc fuel) b h = refl

end-read : (m : Entries) (fuel : ℕ) (b : Bytes) → 1 ≤ fuel → decode_map fuel 0 m b ≡ done (m, b)
unfolding decode_map
end-read m zero b h = absurd (omega (arith, h))
end-read m (suc fuel) b h = refl

entry_sizes :
    (k : Bytes) (v : Value) (es : Entries)
    → length (encode v) + length (encode_map es) ≤ length (encode_map (entry k v es))
unfolding encode_map
entry_sizes k v es = omega (
  arith,
  length-append (put_blob k) (encode v ++ encode_map es),
  length-append (encode v) (encode_map es),
)

mutual
  unfolding encode encode_list encode_map

  value-read :
      (v : Value) (fuel : ℕ) (rest : Bytes)
      → Fits v
      → 2 * length (encode v) ≤ suc fuel
      → decode (suc fuel) (encode v ++ rest) ≡ done (v, rest)
  value-read (scalar s) fuel rest f h =
      decode-tag-scalar s fuel (encode_scalar s ++ rest) ∙ scalar-read s rest f
  value-read (list xs) fuel rest f h =
      let head = put_uvarint (count_values xs) in
      rw
        (
          append_assoc head (encode_list xs) rest,
          decode-tag-list fuel (head ++ (encode_list xs ++ rest)),
          read_uvarint-put_uvarint (count_values xs) (encode_list xs ++ rest) f.0,
          list-read xs fuel rest f.1 (
              omega
                (arith, h, length-append head (encode_list xs), length-uvarint (count_values xs))),
        )
        refl
  value-read (map es) fuel rest f h =
      let head = put_uvarint (count_entries es) in
      rw
        (
          append_assoc head (encode_map es) rest,
          decode-tag-map fuel (head ++ (encode_map es ++ rest)),
          read_uvarint-put_uvarint (count_entries es) (encode_map es ++ rest) f.0,
          map-read es end fuel rest f.2 f.1 (
              omega
                (arith, h, length-append head (encode_map es), length-uvarint (count_entries es))),
        )
        refl

  list-read :
      (xs : Values) (fuel : ℕ) (rest : Bytes)
      → FitsList xs
      → 2 * length (encode_list xs) + 1 ≤ fuel
      → decode_list fuel (count_values xs) (encode_list xs ++ rest) ≡ done (xs, rest)
  list-read nil fuel rest f h = nil-read fuel rest (omega (arith, h))
  list-read (cons x xs) zero rest f h = absurd (omega (arith, h))
  list-read (cons x xs) (suc zero) rest f h =
      absurd (omega (arith, h, length-append (encode x) (encode_list xs), encode-length x))
  list-read (cons x xs) (suc (suc fuel)) rest f h =
      let sizes = length-append (encode x) (encode_list xs) in
      rw
        (
          append_assoc (encode x) (encode_list xs) rest,
          list-step (suc fuel) (count_values xs) (encode x ++ (encode_list xs ++ rest)),
          value-read x fuel (encode_list xs ++ rest) f.0 (omega (arith, h, sizes, encode-length x)),
          list-read xs (suc fuel) rest f.1 (omega (arith, h, sizes, encode-length x)),
        )
        refl

  map-read :
      (es m : Entries) (fuel : ℕ) (rest : Bytes)
      → FitsMap es
      → IsAscending (join m es)
      → 2 * length (encode_map es) + 1 ≤ fuel
      → decode_map fuel (count_entries es) m (encode_map es ++ rest) ≡ done (join m es, rest)
  map-read end m fuel rest f a h = rw (join-end m) (end-read m fuel rest (omega (arith, h)))
  map-read (entry k v es) m zero rest f a h = absurd (omega (arith, h))
  map-read (entry k v es) m (suc zero) rest f a h =
      absurd (omega (arith, h, entry_sizes k v es, encode-length v))
  map-read (entry k v es) m (suc (suc fuel)) rest f a h =
      let sizes = entry_sizes k v es in
      rw
        (
          append_assoc (put_blob k) (encode v ++ encode_map es) rest,
          append_assoc (encode v) (encode_map es) rest,
          map-step (suc fuel) (count_entries es) m
              (put_blob k ++ (encode v ++ (encode_map es ++ rest))),
          blob-read k (encode v ++ (encode_map es ++ rest)) f.0,
          value-read v fuel (encode_map es ++ rest) f.1 (omega (arith, h, sizes)),
          put_entry-last m k v es a,
          map-read es (join m (entry k v end)) (suc fuel) rest f.2 (rw (join_assoc m k v es) a)
              (omega (arith, h, sizes, encode-length v)),
          join_assoc m k v es,
        )
        refl

exact-read : (v : Value) → Fits v → decode (suc (2 * length (encode v))) (encode v) ≡ done (v, [])
exact-read v f =
    ap (decode (suc (2 * length (encode v)))) (sym (append-nil (encode v)))
    ∙ value-read v (2 * length (encode v)) [] f (omega arith)

-- A record is read back from the bytes it was written to: kinds, the bits of floats, offsets and
-- nested lists and maps included.
pub decode_record-encode_record : (v : Value) → Fits v → decode_record (encode_record v) ≡ done v
unfolding decode_record encode_record all_read
decode_record-encode_record v f = rw (exact-read v f) refl
