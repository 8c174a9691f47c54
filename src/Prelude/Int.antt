-- ===== src/Prelude/Int.antt =====
-- Go's `int` where it counts up and down; `negsuc n` is -(n + 1).
use Prim.Native.Nat.{ℕ, zero, suc, ◌*◌, ◌-◌, compare, Ordering}
use mathlib.Core.Bool.{Bool, true, false}

pub data ℤ : Type 0 where
  pos : ℕ → ℤ
  negsuc : ℕ → ℤ

unfoldable pub inc : ℤ → ℤ
inc (pos n) = pos (suc n)
inc (negsuc zero) = pos 0
inc (negsuc (suc n)) = negsuc n

unfoldable pub dec : ℤ → ℤ
dec (pos zero) = negsuc 0
dec (pos (suc n)) = pos n
dec (negsuc n) = negsuc (suc n)

-- `a + b`, by steps of one.
infixl 65 ◌+ℤ◌
unfoldable pub ◌+ℤ◌ : ℤ → ℤ → ℤ
a +ℤ pos zero = a
a +ℤ pos (suc n) = inc (a +ℤ pos n)
a +ℤ negsuc zero = dec a
a +ℤ negsuc (suc n) = dec (a +ℤ negsuc n)

-- The order of two integers.
abbrev pub compare_int : ℤ → ℤ → Ordering
compare_int (pos a) (pos b) = compare a b
compare_int (pos a) (negsuc b) = Ordering.gt
compare_int (negsuc a) (pos b) = Ordering.lt
compare_int (negsuc a) (negsuc b) = compare b a

-- The integer of a sign (`true` is minus) and a magnitude.
abbrev pub signed : Bool → ℕ → ℤ
signed false n = pos n
signed true zero = pos 0
signed true (suc n) = negsuc n

-- `n * z`, for a factor that is not 0.
abbrev pub scale : ℕ → ℤ → ℤ
scale n (pos z) = pos (n * z)
scale n (negsuc z) = negsuc (n * suc z - 1)
