-- ===== src/Value/Record/Parts.antt =====
-- internal/value/record.go: the parts of a record that hold no values are read back.
use mini_graph_db.Prelude.{ℕ, ◌^◌, ◌<◌, ◌≡◌, refl, arith}
use mini_graph_db.Prelude.{none, some, List, [], ◌∷◌, ◌++◌, length, drop, All}
use mini_graph_db.Prelude.{append_assoc, length-append, take-append, drop-append, ltb, true, false}
use mini_graph_db.Prelude.Bytes.{Bytes}
use mini_graph_db.Prelude.Int.{ℤ, pos, negsuc}
use mini_graph_db.Wal.Words.{put_uint64_le, uint64_le-put}
use mini_graph_db.Value.{kind_float, path_of, scalar_kind}
use mini_graph_db.Value.{
  Scalar, null, bool, int, float, string, bytes, date, date_time, duration, node, edge, path,
}
use mini_graph_db.Value.{scalar}
use mini_graph_db.Value.Number.{two63}
use mini_graph_db.Value.Number.Exact.{IsInt64}
use mini_graph_db.Value.Uvarint.{put_uvarint, read_uvarint-put_uvarint, zigzag, unzigzag-zigzag}
use mini_graph_db.Value.Record.{
  done, read_zigzag_int, read_blob, read_ids, decode_zone, is_int32, decode_scalar, put_blob,
  put_ids, encode_scalar,
}

-- The ids of a path: an edge between any two nodes, and ids that are uint64.
abbrev pub IsId : ℕ → Type 0
IsId n = n < 2 ^ 64

-- A scalar that the fields of the struct can hold: ints are int64, an offset is an int32, ids and the
-- bits of a float are uint64, and a path is one that `PathOf` makes.
abbrev pub FitsScalar : Scalar → Type 0
FitsScalar null = Unit
FitsScalar (bool b) = Unit
FitsScalar (int i) = IsInt64 i
FitsScalar (float f) = f < 2 ^ 64
FitsScalar (string s) = length s < 2 ^ 64
FitsScalar (bytes s) = length s < 2 ^ 64
FitsScalar (date i) = IsInt64 i
FitsScalar (date_time i none) = IsInt64 i
FitsScalar (date_time i (some off)) = IsInt64 i × (is_int32 off ≡ true)
FitsScalar (duration i day nsec) = IsInt64 i × IsInt64 day × IsInt64 nsec
FitsScalar (node u) = IsId u
FitsScalar (edge u) = IsId u
FitsScalar (path nodes edges) =
    All IsId nodes
    × All IsId edges
    × (length nodes < 2 ^ 64)
    × (length edges < 2 ^ 64)
    × (path_of nodes edges ≡ some (scalar (path nodes edges)))

zigzag-read :
    (z : ℤ) (rest : Bytes)
    → IsInt64 z
    → read_zigzag_int (put_uvarint (zigzag z) ++ rest) ≡ done (z, rest)
unfolding read_zigzag_int
zigzag-read z rest h =
    let (back, small) = unzigzag-zigzag z h in
    rw (read_uvarint-put_uvarint (zigzag z) rest small, back) refl

pub blob-read :
    (s rest : Bytes) → length s < 2 ^ 64 → read_blob (put_blob s ++ rest) ≡ done (s, rest)
unfolding read_blob put_blob
blob-read s rest h =
    rw
      (
        append_assoc (put_uvarint (length s)) s rest,
        read_uvarint-put_uvarint (length s) (s ++ rest) h,
        take-append s rest,
        drop-append s rest,
      )
      (ground (arith, length-append s rest))

ids-read :
    (ids : List ℕ) (rest : Bytes)
    → All IsId ids
    → read_ids (length ids) (put_ids ids ++ rest) ≡ done (ids, rest)
unfolding read_ids put_ids
ids-read [] rest h = refl
ids-read (id ∷ ids) rest h =
    rw
      (
        append_assoc (put_uvarint id) (put_ids ids) rest,
        read_uvarint-put_uvarint id (put_ids ids ++ rest) h.0,
        ids-read ids rest h.1,
      )
      refl

int32-IsInt64 : (z : ℤ) → is_int32 z ≡ true → IsInt64 z
unfolding two63
int32-IsInt64 (pos n) h = ground (arith, h)
int32-IsInt64 (negsuc n) h = ground (arith, h)

float-rest :
    (f : ℕ) (rest : Bytes)
    → (ltb (length (put_uint64_le f ++ rest)) 8 ≡ false) × (drop 8 (put_uint64_le f ++ rest) ≡ rest)
unfolding put_uint64_le
float-rest f rest = (ground arith, refl)

float-read :
    (f : ℕ) (rest : Bytes)
    → f < 2 ^ 64
    → decode_scalar kind_float (put_uint64_le f ++ rest) ≡ done (scalar (float f), rest)
unfolding decode_scalar
float-read f rest h = rw ((float-rest f rest).0, uint64_le-put f rest h, (float-rest f rest).1) refl

-- A value that holds none is read back from what stands behind its kind's byte.
pub scalar-read :
    (s : Scalar) (rest : Bytes)
    → FitsScalar s
    → decode_scalar (scalar_kind s) (encode_scalar s ++ rest) ≡ done (scalar s, rest)
unfolding decode_scalar encode_scalar decode_zone
scalar-read null rest h = refl
scalar-read (bool true) rest h = refl
scalar-read (bool false) rest h = refl
scalar-read (int i) rest h = rw (zigzag-read i rest h) refl
scalar-read (float f) rest h = float-read f rest h
scalar-read (string s) rest h = rw (blob-read s rest h) refl
scalar-read (bytes s) rest h = rw (blob-read s rest h) refl
scalar-read (date i) rest h = rw (zigzag-read i rest h) refl
scalar-read (date_time i none) rest h =
    rw (append_assoc (put_uvarint (zigzag i)) (0 ∷ []) rest, zigzag-read i (0 ∷ rest) h) refl
scalar-read (date_time i (some off)) rest h =
    rw
      (
        append_assoc (put_uvarint (zigzag i)) (1 ∷ put_uvarint (zigzag off)) rest,
        zigzag-read i (1 ∷ (put_uvarint (zigzag off) ++ rest)) h.0,
        zigzag-read off rest (int32-IsInt64 off h.1),
        h.1,
      )
      refl
scalar-read (duration i day nsec) rest h =
    let tail = put_uvarint (zigzag day) ++ put_uvarint (zigzag nsec) in
    rw
      (
        append_assoc (put_uvarint (zigzag i)) tail rest,
        append_assoc (put_uvarint (zigzag day)) (put_uvarint (zigzag nsec)) rest,
        zigzag-read i (put_uvarint (zigzag day) ++ (put_uvarint (zigzag nsec) ++ rest)) h.0,
        zigzag-read day (put_uvarint (zigzag nsec) ++ rest) h.1,
        zigzag-read nsec rest h.2,
      )
      refl
scalar-read (node u) rest h = rw (read_uvarint-put_uvarint u rest h) refl
scalar-read (edge u) rest h = rw (read_uvarint-put_uvarint u rest h) refl
scalar-read (path nodes edges) rest h =
    let edge_part = put_uvarint (length edges) ++ put_ids edges in
    rw
      (
        append_assoc (put_uvarint (length nodes)) (put_ids nodes ++ edge_part) rest,
        append_assoc (put_ids nodes) edge_part rest,
        append_assoc (put_uvarint (length edges)) (put_ids edges) rest,
        read_uvarint-put_uvarint (length nodes)
            (put_ids nodes ++ (put_uvarint (length edges) ++ (put_ids edges ++ rest))) h.2,
        ids-read nodes (put_uvarint (length edges) ++ (put_ids edges ++ rest)) h.0,
        read_uvarint-put_uvarint (length edges) (put_ids edges ++ rest) h.3,
        ids-read edges rest h.1,
        h.4,
      )
      refl
