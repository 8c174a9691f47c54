-- ===== src/Value/Record.antt =====
-- internal/value/record.go: the compact encoding that keeps the kind of every value.
pub mod Total
pub mod Parts
pub mod RoundTrip
use mini_graph_db.Prelude.{ℕ, zero, suc, ◌+◌, ◌*◌, ◌^◌, Bool, true, false, not, ◌||◌}
use mini_graph_db.Prelude.{
  List, [], ◌∷◌, ◌++◌, length, take, drop, get_elem?, if◌then◌else◌, ltb, leb, nat_beq,
}
use mini_graph_db.Prelude.{Option, none, some}
use mini_graph_db.Prelude.Bytes.{Bytes}
use mini_graph_db.Prelude.Int.{ℤ, pos, negsuc}
use mini_graph_db.Wal.Words.{put_uint64_le, uint64_le}
use mini_graph_db.Value.{
  Kind, kind_null, kind_bool, kind_int, kind_float, kind_string, kind_bytes, kind_date,
  kind_date_time, kind_duration, kind_list, kind_map, kind_node, kind_edge, kind_path, tag,
}
use mini_graph_db.Value.{
  Scalar, null, bool, int, float, string, bytes, date, date_time, duration, node, edge, path,
  scalar_kind, put_entry, path_of,
}
use mini_graph_db.Value.{Value, scalar, list, map, Values, nil, cons, Entries, end, entry}
use mini_graph_db.Value.Uvarint.{put_uvarint, read_uvarint, zigzag, unzigzag}

-- The errors of `DecodeRecord`; `out_of_fuel` is the model's own.
pub data RecordError : Type 0 where
  truncated : RecordError
  unsupported_version : RecordError
  trailing_bytes : RecordError
  offset_out_of_range : RecordError
  bad_path : RecordError
  unknown_kind : RecordError
  out_of_fuel : RecordError

pub data Decoded (A : Type 0) : Type 0 where
  done : A → Decoded A
  fail : RecordError → Decoded A

infixl 5 ◌>>=◌
abbrev pub ◌>>=◌ : {A B : Type 0} → Decoded A → (A → Decoded B) → Decoded B
done a >>= f = f a
fail e >>= f = fail e

abbrev pub format_version : ℕ
format_version = 1

unfoldable pub put_blob : Bytes → Bytes
put_blob s = put_uvarint (length s) ++ s

unfoldable pub put_ids : List ℕ → Bytes
put_ids [] = []
put_ids (id ∷ ids) = put_uvarint id ++ put_ids ids

-- What `appendRecord` appends behind the kind's byte, for a value that holds none.
unfoldable pub encode_scalar : Scalar → Bytes
encode_scalar null = []
encode_scalar (bool b) = (if b then 1 else 0) ∷ []
encode_scalar (int i) = put_uvarint (zigzag i)
encode_scalar (float f) = put_uint64_le f
encode_scalar (string s) = put_blob s
encode_scalar (bytes raw) = put_blob raw
encode_scalar (date i) = put_uvarint (zigzag i)
encode_scalar (date_time i none) = put_uvarint (zigzag i) ++ (0 ∷ [])
encode_scalar (date_time i (some off)) = put_uvarint (zigzag i) ++ (1 ∷ put_uvarint (zigzag off))
encode_scalar (duration i day nsec) =
    put_uvarint (zigzag i) ++ (put_uvarint (zigzag day) ++ put_uvarint (zigzag nsec))
encode_scalar (node u) = put_uvarint u
encode_scalar (edge u) = put_uvarint u
encode_scalar (path nodes edges) =
    put_uvarint (length nodes) ++ (put_ids nodes ++ (put_uvarint (length edges) ++ put_ids edges))

abbrev pub count_values : Values → ℕ
count_values nil = 0
count_values (cons x xs) = suc (count_values xs)

abbrev pub count_entries : Entries → ℕ
count_entries end = 0
count_entries (entry k v es) = suc (count_entries es)

-- `appendRecord`.
unfoldable mutual
  pub encode : Value → Bytes
  encode (scalar s) = tag (scalar_kind s) ∷ encode_scalar s
  encode (list xs) = tag kind_list ∷ (put_uvarint (count_values xs) ++ encode_list xs)
  encode (map es) = tag kind_map ∷ (put_uvarint (count_entries es) ++ encode_map es)

  pub encode_list : Values → Bytes
  encode_list nil = []
  encode_list (cons el xs) = encode el ++ encode_list xs

  pub encode_map : Entries → Bytes
  encode_map end = []
  encode_map (entry key val es) = put_blob key ++ (encode val ++ encode_map es)

unfoldable pub encode_record : Value → Bytes
encode_record v = format_version ∷ encode v

abbrev pub or_truncated : {A : Type 0} → Option A → Decoded A
or_truncated none = fail truncated
or_truncated (some a) = done a

unfoldable pub read_zigzag_int : Bytes → Decoded (ℤ × Bytes)
read_zigzag_int b = do (n, rest) ← or_truncated (read_uvarint b); done (unzigzag n, rest)

unfoldable pub read_blob : Bytes → Decoded (Bytes × Bytes)
read_blob b = do
  (n, rest) ← or_truncated (read_uvarint b)
  if ltb (length rest) n then fail truncated else done (take n rest, drop n rest)

unfoldable pub read_ids : ℕ → Bytes → Decoded (List ℕ × Bytes)
read_ids zero b = done ([], b)
read_ids (suc n) b = do
  (id, r) ← or_truncated (read_uvarint b)
  (ids, rest) ← read_ids n r
  done (id ∷ ids, rest)

-- An int64 that is an int32.
abbrev pub is_int32 : ℤ → Bool
is_int32 (pos n) = ltb n (2 ^ 31)
is_int32 (negsuc n) = ltb n (2 ^ 31)

abbrev pub kinds : List Kind
kinds =
    kind_null ∷ kind_bool ∷ kind_int ∷ kind_float ∷ kind_string ∷ kind_bytes ∷ kind_date
    ∷ kind_date_time ∷ kind_duration ∷ kind_list ∷ kind_map ∷ kind_node ∷ kind_edge ∷ kind_path ∷ []

unfoldable pub kind_of_tag : ℕ → Option Kind
kind_of_tag t = get_elem? kinds t

abbrev pub or_bad_path : Option Value → Decoded Value
or_bad_path none = fail bad_path
or_bad_path (some v) = done v

abbrev pub head_byte : Bytes → Decoded (ℕ × Bytes)
head_byte [] = fail truncated
head_byte (x ∷ rest) = done (x, rest)

-- An instant from its flag on: an offset follows a flag that is not 0.
unfoldable pub decode_zone : ℤ → ℕ → Bytes → Decoded (Value × Bytes)
decode_zone n zero rest = done (scalar (date_time n none), rest)
decode_zone n (suc flag) rest = do
  (off, r) ← read_zigzag_int rest
  if is_int32 off then done (scalar (date_time n (some off)), r) else fail offset_out_of_range

-- The switch of `decodeRecord`, but for lists and maps.
unfoldable pub decode_scalar : Kind → Bytes → Decoded (Value × Bytes)
decode_scalar kind_null b = done (scalar null, b)
decode_scalar kind_bool [] = fail truncated
decode_scalar kind_bool (x ∷ b) = done (scalar (bool (not (nat_beq x 0))), b)
decode_scalar kind_int b = do (n, rest) ← read_zigzag_int b; done (scalar (int n), rest)
decode_scalar kind_float b =
    if ltb (length b) 8 then fail truncated else done (scalar (float (uint64_le b)), drop 8 b)
decode_scalar kind_string b = do (s, rest) ← read_blob b; done (scalar (string s), rest)
decode_scalar kind_bytes b = do (s, rest) ← read_blob b; done (scalar (bytes s), rest)
decode_scalar kind_date b = do (n, rest) ← read_zigzag_int b; done (scalar (date n), rest)
decode_scalar kind_date_time b = do
  (n, r) ← read_zigzag_int b
  (flag, rest) ← head_byte r
  decode_zone n flag rest
decode_scalar kind_duration b = do
  (months, r) ← read_zigzag_int b
  (days, s) ← read_zigzag_int r
  (nanos, rest) ← read_zigzag_int s
  done (scalar (duration months days nanos), rest)
decode_scalar kind_list b = fail unknown_kind
decode_scalar kind_map b = fail unknown_kind
decode_scalar kind_node b = do
  (id, rest) ← or_truncated (read_uvarint b)
  done (scalar (node id), rest)
decode_scalar kind_edge b = do
  (id, rest) ← or_truncated (read_uvarint b)
  done (scalar (edge id), rest)
decode_scalar kind_path b = do
  (nn, r) ← or_truncated (read_uvarint b)
  (nodes, s) ← read_ids nn r
  (ne, t) ← or_truncated (read_uvarint s)
  (edges, rest) ← read_ids ne t
  p ← or_bad_path (path_of nodes edges)
  done (p, rest)

-- The switch on a tag, by what its cases for lists and maps return.
unfoldable pub by_kind :
    Option Kind → Bytes → (of_list of_map : Decoded (Value × Bytes)) → Decoded (Value × Bytes)
by_kind none b of_list of_map = fail unknown_kind
by_kind (some kind_list) b of_list of_map = of_list
by_kind (some kind_map) b of_list of_map = of_map
by_kind (some k) b of_list of_map = decode_scalar k b

-- `decodeRecord` on fuel; `m` is the Go map filled so far.
unfoldable mutual
  pub decode : ℕ → Bytes → Decoded (Value × Bytes)
  decode zero b = fail out_of_fuel
  decode (suc fuel) [] = fail truncated
  decode (suc fuel) (t ∷ b) =
      by_kind (kind_of_tag t) b
        (do
          (n, r) ← or_truncated (read_uvarint b)
          (xs, rest) ← decode_list fuel n r
          done (list xs, rest))
        (do
          (n, r) ← or_truncated (read_uvarint b)
          (es, rest) ← decode_map fuel n end r
          done (map es, rest))

  pub decode_list : ℕ → ℕ → Bytes → Decoded (Values × Bytes)
  decode_list zero n b = fail out_of_fuel
  decode_list (suc fuel) zero b = done (nil, b)
  decode_list (suc fuel) (suc n) b = do
    (el, r) ← decode fuel b
    (xs, rest) ← decode_list fuel n r
    done (cons el xs, rest)

  pub decode_map : ℕ → ℕ → Entries → Bytes → Decoded (Entries × Bytes)
  decode_map zero n m b = fail out_of_fuel
  decode_map (suc fuel) zero m b = done (m, b)
  decode_map (suc fuel) (suc n) m b = do
    (key, r) ← read_blob b
    (val, s) ← decode fuel r
    decode_map fuel n (put_entry key val m) s

-- The buffer must be exactly one record.
unfoldable pub all_read : Value × Bytes → Decoded Value
all_read (v, []) = done v
all_read (v, (x ∷ rest)) = fail trailing_bytes

-- `DecodeRecord`.
unfoldable pub decode_record : Bytes → Decoded Value
decode_record [] = fail truncated
decode_record (version ∷ b) =
    if nat_beq version format_version
    then decode (suc (2 * length b)) b >>= all_read
    else fail unsupported_version
