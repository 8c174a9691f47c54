-- ===== src/Value/Uvarint.antt =====
-- internal/value/record.go: varints (`encoding/binary` of the standard library) and zigzag.
use mini_graph_db.Prelude.{ℕ, zero, suc, ◌+◌, ◌*◌, ◌/◌, ◌%◌, ◌^◌, ◌<◌, ◌≡◌, refl, arith}
use mini_graph_db.Prelude.{◌&&◌, Option, none, some, [], ◌∷◌, ◌++◌, length}
use mini_graph_db.Prelude.{if◌then◌else◌, ltb, nat_beq, Bool-cases, Option-cases, inl, inr}
use mini_graph_db.Prelude.Bytes.{Bytes}
use mini_graph_db.Prelude.Int.{ℤ, pos, negsuc}
use mini_graph_db.Value.Number.{two63}
use mini_graph_db.Value.Number.Exact.{IsInt64}

-- `binary.AppendUvarint`: seven bits to a byte, the low ones first. A uint64 takes 10 bytes at most.
unfoldable pub put_groups : ℕ → ℕ → Bytes
put_groups zero n = n ∷ []
put_groups (suc fuel) n =
    let rest = put_groups fuel (n / 128) in if ltb n 128 then n ∷ [] else (n % 128 + 128) ∷ rest

unfoldable pub put_uvarint : ℕ → Bytes
put_uvarint n = put_groups 9 n

-- `binary.Uvarint` from byte `i` on; `none`: it is cut short, or overflows 64 bits.
unfoldable pub read_groups : ℕ → Bytes → Option (ℕ × Bytes)
read_groups i [] = none
read_groups i (b ∷ bs) =
    let rest = read_groups (suc i) bs in
    if nat_beq i 10
    then none
    else if ltb b 128
    then (if nat_beq i 9 && ltb 1 b then none else some (b, bs))
    else elim rest [ none ↦ none | some (n, r) ↦ some (b % 128 + 128 * n, r) ]

-- `readUvarint`; `none` is its error.
unfoldable pub read_uvarint : Bytes → Option (ℕ × Bytes)
read_uvarint b = read_groups 0 b

-- `uint64((n << 1) ^ (n >> 63))`, and back.
unfoldable pub zigzag : ℤ → ℕ
zigzag (pos n) = 2 * n % 2 ^ 64
zigzag (negsuc n) = (2 * n + 1) % 2 ^ 64

unfoldable pub unzigzag : ℕ → ℤ
unzigzag u = if nat_beq (u % 2) 0 then pos (u / 2) else negsuc (u / 2)

-- What is left to fill when `k` more bytes may follow.
room : ℕ → ℕ
room zero = 2
room (suc k) = 128 * room k

read_groups-put_groups :
    (k i n : ℕ) (rest : Bytes)
    → i + k ≡ 9
    → n < room k
    → read_groups i (put_groups k n ++ rest) ≡ some (n, rest)
unfolding read_groups put_groups room
read_groups-put_groups zero i n rest e h = ground arith
read_groups-put_groups (suc k) i n rest e h = elim (Bool-cases (ltb n 128)) [
  | inl small ↦ rw small (ground arith)
  | inr large ↦ rw large (
      ground (
        arith,
        read_groups-put_groups k (suc i) (n / 128) rest (omega (arith, e)) (omega (arith, h)),
      ))
]

-- A varint is read back, and what follows it is left.
pub read_uvarint-put_uvarint :
    (n : ℕ) (rest : Bytes) → n < 2 ^ 64 → read_uvarint (put_uvarint n ++ rest) ≡ some (n, rest)
unfolding read_uvarint put_uvarint room
read_uvarint-put_uvarint n rest h = read_groups-put_groups 9 0 n rest refl h

read_groups-shorter :
    (i n : ℕ) (b rest : Bytes) → read_groups i b ≡ some (n, rest) → length rest < length b
unfolding read_groups
read_groups-shorter i n [] rest e = cc
read_groups-shorter i n (b ∷ bs) rest e = elim (Option-cases (read_groups (suc i) bs)) [
  | inl cut ↦ ground (arith, e, cut)
  | inr ((m, r), found) ↦ ground (arith, e, found, read_groups-shorter (suc i) m bs r found)
]

-- A varint takes a byte at least.
pub read_uvarint-shorter :
    (n : ℕ) (b rest : Bytes) → read_uvarint b ≡ some (n, rest) → length rest < length b
unfolding read_uvarint
read_uvarint-shorter n b rest e = read_groups-shorter 0 n b rest e

-- An int64 is read back from its zigzag, which is a uint64.
pub unzigzag-zigzag : (z : ℤ) → IsInt64 z → (unzigzag (zigzag z) ≡ z) × (zigzag z < 2 ^ 64)
unfolding unzigzag zigzag two63
unzigzag-zigzag (pos n) h = (ground arith, omega arith)
unzigzag-zigzag (negsuc n) h = (ground arith, omega arith)
