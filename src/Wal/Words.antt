-- ===== src/Wal/Words.antt =====
-- `binary.LittleEndian` of the standard library, and int64 as two's complement.
use mini_graph_db.Prelude.{
  ℕ, ◌+◌, ◌-◌, ◌*◌, ◌/◌, ◌%◌, ◌^◌, ◌<◌, [], ◌∷◌, ◌++◌, ◌≡◌, arith, if◌then◌else◌, ltb,
}
use mini_graph_db.Prelude.Bytes.{Bytes}
use mini_graph_db.Prelude.Int.{ℤ, pos, negsuc}

unfoldable pub put_uint16_le : ℕ → Bytes
put_uint16_le n = (n % 256) ∷ (n / 2 ^ 8 % 256) ∷ []

unfoldable pub put_uint32_le : ℕ → Bytes
put_uint32_le n = (n % 256) ∷ (n / 2 ^ 8 % 256) ∷ (n / 2 ^ 16 % 256) ∷ (n / 2 ^ 24 % 256) ∷ []

unfoldable pub put_uint64_le : ℕ → Bytes
put_uint64_le n =
    (n % 256)
    ∷ (n / 2 ^ 8 % 256)
    ∷ (n / 2 ^ 16 % 256)
    ∷ (n / 2 ^ 24 % 256)
    ∷ (n / 2 ^ 32 % 256)
    ∷ (n / 2 ^ 40 % 256)
    ∷ (n / 2 ^ 48 % 256)
    ∷ (n / 2 ^ 56 % 256)
    ∷ []

-- The first bytes as a word; the callers have checked that they are there.
unfoldable pub uint16_le : Bytes → ℕ
uint16_le (a ∷ b ∷ _) = a + b * 2 ^ 8
uint16_le _ = 0

unfoldable pub uint32_le : Bytes → ℕ
uint32_le (a ∷ b ∷ c ∷ d ∷ _) = a + b * 2 ^ 8 + c * 2 ^ 16 + d * 2 ^ 24
uint32_le _ = 0

unfoldable pub uint64_le : Bytes → ℕ
uint64_le (a ∷ b ∷ c ∷ d ∷ e ∷ f ∷ g ∷ h ∷ _) =
    a + b * 2 ^ 8 + c * 2 ^ 16 + d * 2 ^ 24 + e * 2 ^ 32 + f * 2 ^ 40 + g * 2 ^ 48 + h * 2 ^ 56
uint64_le _ = 0

pub uint16_le-put : (n : ℕ) (rest : Bytes) → n < 2 ^ 16 → uint16_le (put_uint16_le n ++ rest) ≡ n
unfolding uint16_le put_uint16_le
uint16_le-put n rest h = omega arith

pub uint32_le-put : (n : ℕ) (rest : Bytes) → n < 2 ^ 32 → uint32_le (put_uint32_le n ++ rest) ≡ n
unfolding uint32_le put_uint32_le
uint32_le-put n rest h = omega arith

pub uint64_le-put : (n : ℕ) (rest : Bytes) → n < 2 ^ 64 → uint64_le (put_uint64_le n ++ rest) ≡ n
unfolding uint64_le put_uint64_le
uint64_le-put n rest h = omega arith

-- `uint64(x)` and `int64(n)`.
abbrev pub to_uint64 : ℤ → ℕ
to_uint64 (pos n) = n % 2 ^ 64
to_uint64 (negsuc n) = 2 ^ 64 - 1 - n % 2 ^ 64

abbrev pub to_int64 : ℕ → ℤ
to_int64 n = if ltb n (2 ^ 63) then pos n else negsuc (2 ^ 64 - 1 - n)
