-- ===== src/Value/Number.antt =====
-- internal/value/number.go: the numeric family, on the bits of a float64 (IEEE 754 binary64).
-- A finite float is the integer multiple of 2 ^ -1074 it stands for.
pub mod Exact
use mini_graph_db.Prelude.{ℕ, zero, suc, ◌+◌, ◌-◌, ◌*◌, ◌/◌, ◌%◌, ◌^◌, Ordering}
use mini_graph_db.Prelude.{Bool, true, false, ◌&&◌, ◌||◌, if◌then◌else◌, ltb, leb, nat_beq}
use mini_graph_db.Prelude.Int.{ℤ, pos, negsuc, dec, compare_int, signed, scale}

-- What a float64 stands for.
pub data Number : Type 0 where
  neg_inf : Number
  fin : ℤ → Number
  pos_inf : Number
  nan : Number

-- 1.0, and 2 ^ 63, in units of 2 ^ -1074.
unfoldable pub one : ℕ
one = 2 ^ 1074

unfoldable pub two63 : ℕ
two63 = 2 ^ 63

-- The number of an exponent field and a fraction field.
unfoldable pub magnitude : ℕ → ℕ → ℕ
magnitude zero m = m
magnitude (suc e) m = (2 ^ 52 + m) * 2 ^ e

unfoldable pub number : ℕ → Number
number bits =
    let minus = nat_beq (bits / 2 ^ 63) 1 in
    let e = bits / 2 ^ 52 % 2 ^ 11 in
    let m = bits % 2 ^ 52 in
    if nat_beq e 2047
    then (if nat_beq m 0 then (if minus then neg_inf else pos_inf) else nan)
    else fin (signed minus (magnitude e m))

-- `float64(n)` of a magnitude below 2 ^ 64: the nearest number of 53 bits, a tie to the even one.
-- `k` is the number of low bits the search has dropped so far.
unfoldable pub round_from : ℕ → ℕ → ℕ → ℕ
round_from zero k n = n
round_from (suc fuel) k n =
    let rest = round_from fuel (suc k) n in
    let unit = 2 ^ k in
    let q = n / unit in
    let r = n % unit in
    if leb (2 ^ 53) q
    then rest
    else if ltb (2 * r) unit || (nat_beq (2 * r) unit && nat_beq (q % 2) 0)
    then q * unit
    else (q + 1) * unit

unfoldable pub round : ℕ → ℕ
round n = round_from 12 0 n

-- `float64(i)`, in units of 2 ^ -1074.
unfoldable pub of_int : ℤ → ℤ
of_int (pos n) = pos (one * round n)
of_int (negsuc n) = signed true (one * round (suc n))

-- `int64(f)` of a finite float in range: towards zero.
unfoldable pub trunc : ℤ → ℤ
trunc (pos z) = pos (z / one)
trunc (negsuc z) = signed true (suc z / one)

abbrev pub lt_int : ℤ → ℤ → Bool
lt_int a b = elim (compare_int a b) [ Ordering.lt ↦ true | _ ↦ false ]

abbrev pub eq_int : ℤ → ℤ → Bool
eq_int a b = elim (compare_int a b) [ Ordering.eq ↦ true | _ ↦ false ]

-- `compareFloat`.
unfoldable pub compare_numbers : Number → Number → Ordering
compare_numbers nan nan = Ordering.eq
compare_numbers nan _ = Ordering.gt
compare_numbers _ nan = Ordering.lt
compare_numbers neg_inf neg_inf = Ordering.eq
compare_numbers neg_inf _ = Ordering.lt
compare_numbers _ neg_inf = Ordering.gt
compare_numbers pos_inf pos_inf = Ordering.eq
compare_numbers pos_inf _ = Ordering.gt
compare_numbers _ pos_inf = Ordering.lt
compare_numbers (fin a) (fin b) = compare_int a b

unfoldable pub compare_float : ℕ → ℕ → Ordering
compare_float a b = compare_numbers (number a) (number b)

-- `compareIntFloat` from its test `f == 0` on: `f` is finite.
unfoldable pub compare_int_finite : ℤ → ℤ → Ordering
compare_int_finite i f =
    let t = trunc f in
    let floor = dec t in
    if eq_int f (pos 0)
    then compare_int i (pos 0)
    else if lt_int f (pos (one * two63))
    then (if lt_int f (signed true (one * two63))
        then Ordering.gt
        else if lt_int f (pos 0)
        then (if eq_int (of_int t) f
            then compare_int i t
            else if lt_int floor i
            then Ordering.gt
            else Ordering.lt)
        else if lt_int i t
        then Ordering.lt
        else if lt_int t i
        then Ordering.gt
        else if eq_int (of_int t) f
        then Ordering.eq
        else Ordering.lt)
    else Ordering.lt

unfoldable pub compare_int_float : ℤ → ℕ → Ordering
compare_int_float i f = elim (number f) [
  | nan ↦ Ordering.lt
  | pos_inf ↦ Ordering.lt
  | neg_inf ↦ Ordering.gt
  | fin z ↦ compare_int_finite i z
]
