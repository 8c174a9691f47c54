-- ===== src/Value/Number/Exact.antt =====
-- internal/value/number.go: `compareIntFloat` is the order of the numbers its arguments stand for.
use mini_graph_db.Prelude.{ℕ, zero, suc, ◌+◌, ◌-◌, ◌*◌, ◌/◌, ◌%◌, ◌^◌, ◌≤◌, ◌<◌, compare, Ordering}
use mini_graph_db.Prelude.{◌≡◌, refl, sym, ap, ◌∙◌, ◌⊎◌, inl, inr, Bool, true, false, arith}
use mini_graph_db.Prelude.{Bool-cases, if◌then◌else◌, nat_beq, leb}
use mini_graph_db.Prelude.Int.{ℤ, pos, negsuc, dec, compare_int, signed, scale}
use mini_graph_db.Value.Number.{
  one, two63, lt_int, eq_int, magnitude, number, round_from, round, of_int, trunc, compare_numbers,
  compare_int_finite, compare_int_float, fin,
}
use native.Mathlib.Nat.{div-add-mod, mod-lt, div-eq_of_eq-mul_left, lt_of_mul-lt-mul_left}
use native.Mathlib.Nat.{mul-le-mul_left, mul_assoc}

pow_pos : (k : ℕ) → 0 < 2 ^ k
pow_pos zero = omega arith
pow_pos (suc k) = omega (arith, pow_pos k)

pow-suc : (k : ℕ) → 2 ^ suc k ≡ 2 * 2 ^ k
pow-suc k = omega arith

pow-add : (d k : ℕ) → 2 ^ (d + k) ≡ 2 ^ d * 2 ^ k
pow-add zero k = ap (λ t. 2 ^ t) {y = k} (omega arith) ∙ omega arith
pow-add (suc d) k =
    ap (λ t. 2 ^ t) {y = suc (d + k)} (omega arith)
    ∙ omega (arith, pow-add d k, ap (λ t. t * 2 ^ k) (pow-suc d))

regroup : (a b c : ℕ) → a * (2 * b) * c ≡ a * b * (2 * c)
regroup a b c = omega arith

-- A multiple of the unit is its quotient.
divide : (u q n : ℕ) → 0 < u → n ≡ q * u → (n / u ≡ q) × (n % u ≡ 0)
divide u q n h e =
    let quotient = div-eq_of_eq-mul_left {n = u} {m = n} {k = q} h e in
    (quotient, omega (arith, div-add-mod n u, ap (λ t. u * t) quotient))

-- A number of 53 bits times a power of 2 is its own rounding.
round_from_same : (fuel k d m n : ℕ) → m < 2 ^ 53 → n ≡ m * 2 ^ d * 2 ^ k → round_from fuel k n ≡ n
unfolding round_from
round_from_same zero k d m n h e = refl
round_from_same (suc fuel) k zero m n h e =
    let facts = divide (2 ^ k) m n (pow_pos k) (omega (arith, e)) in
    ground (arith, facts.0, facts.1, pow_pos k, e)
round_from_same (suc fuel) k (suc d) m n h e =
    let facts = divide (2 ^ k) (m * 2 ^ suc d) n (pow_pos k) e in
    ground (
      arith,
      facts.0,
      facts.1,
      pow_pos k,
      e,
      round_from_same fuel (suc k) d m n h
          (cc (e, pow-suc d, pow-suc k, regroup m (2 ^ d) (2 ^ k))),
      div-add-mod n (2 ^ k),
    )

round_same : (m d : ℕ) → m < 2 ^ 53 → round (m * 2 ^ d) ≡ m * 2 ^ d
unfolding round
round_same m d h = round_from_same 12 0 d m (m * 2 ^ d) h (omega arith)

round_small : (q : ℕ) → q < 2 ^ 53 → round q ≡ q
unfolding round
round_small q h = round_from_same 12 0 0 q q h (omega arith)

-- The whole part of a finite float has 53 bits, but for a power of 2.
whole-small : (u q z b : ℕ) → z < u * b → u * q ≤ z → q < b
whole-small u q z b h k = lt_of_mul-lt-mul_left u (omega (arith, h, k))

div-mul-le : (z u : ℕ) → u * (z / u) ≤ z
div-mul-le z u = omega (arith, div-add-mod z u)

pow-le : (j k : ℕ) → j ≤ k → 2 ^ j ≤ 2 ^ k
pow-le j k h =
    let split = ap (λ t. 2 ^ t) {x = k} {y = (k - j) + j} (omega (arith, h)) ∙ pow-add (k - j) j in
    omega (arith, split, mul-le-mul_left {m = 1} {n = 2 ^ (k - j)} (2 ^ j) (pow_pos (k - j)))

whole-magnitude :
    (k e m : ℕ)
    → m < 2 ^ 52
    → (magnitude e m / 2 ^ k < 2 ^ 53) ⊎ ((d : ℕ) × (magnitude e m / 2 ^ k ≡ (2 ^ 52 + m) * 2 ^ d))
unfolding magnitude
whole-magnitude k zero m h = inl (
    whole-small (2 ^ k) _ m (2 ^ 53)
      (omega (arith, mul-le-mul_left {m = 1} {n = 2 ^ k} (2 ^ 53) (pow_pos k)))
      (div-mul-le m (2 ^ k)))
whole-magnitude k (suc e) m h = elim (Bool-cases (leb k e)) [
  | inl above ↦
      let same =
        ap (λ t. 2 ^ t) {x = e} {y = e - k + k} (ground (arith, above)) ∙ pow-add (e - k) k in
      inr (
        e - k,
        (divide (2 ^ k) ((2 ^ 52 + m) * 2 ^ (e - k)) _ (pow_pos k) (
            ap (λ t. (2 ^ 52 + m) * t) same
            ∙ sym (mul_assoc (2 ^ 52 + m) (2 ^ (e - k)) (2 ^ k)))).0,
      )
  | inr below ↦ inl (
      whole-small (2 ^ k) _ ((2 ^ 52 + m) * 2 ^ e) (2 ^ 53)
        (omega (
          arith,
          pow-le e k (ground (arith, below)),
          pow_pos e,
          mul-le-mul_left {m = suc (2 ^ 52 + m)} {n = 2 ^ 53} (2 ^ e) (omega (arith, h)),
        ))
        (div-mul-le _ (2 ^ k)))
]

-- The whole part of a finite float is its own rounding.
round-whole : (e m : ℕ) → m < 2 ^ 52 → round (magnitude e m / one) ≡ magnitude e m / one
unfolding one
round-whole e m h = elim (whole-magnitude 1074 e m h) [
  | inl small ↦ round_small _ small
  | inr (d, q) ↦ rw q (round_same (2 ^ 52 + m) d (omega (arith, h)))
]

-- The bounds of a whole multiple of the unit.
pub mul-step : (u a q z : ℕ) → a < q → u * q ≤ z → u * a + u ≤ z
mul-step u a q z h k = omega (arith, k, mul-le-mul_left {m = suc a} {n = q} u h)

-- An int64 has 63 bits beside its sign.
abbrev pub IsInt64 : ℤ → Type 0
IsInt64 (pos n) = n < two63
IsInt64 (negsuc n) = n < two63

signed-minus : (x : ℕ) → 0 < x → signed true x ≡ negsuc (x - 1)
signed-minus zero h = absurd (omega arith)
signed-minus (suc x) h = ap negsuc (omega arith)

pub one_pos : 0 < one
unfolding one
one_pos = omega arith

limit_pos : 0 < one * two63
unfolding one two63
limit_pos = omega arith

-- What relates a whole number to the multiples of the unit between which a float lies.
module _ (n z : ℕ) where
  unit_facts :
      (one * (z / one) + z % one ≡ z)
      × (z % one < one)
      × (n < z / one → one * n < z)
      × (z / one < n → z < one * n)
      × (n < two63 → one * two63 ≤ z → one * n < z)
  unit_facts =
      let whole = div-add-mod z one in
      let part = mod-lt z one_pos in
      (
        whole,
        part,
        λ h. omega (arith, one_pos, mul-step one n (z / one) z h (omega (arith, whole))),
        λ h. omega (arith, part, whole, mul-step one (z / one) n (one * n) h (omega arith)),
        λ h k. omega (arith, one_pos, mul-step one n two63 z h k),
      )

-- For a positive float whose whole part is its own rounding.
positive-exact :
    (n z : ℕ)
    → n < two63
    → 0 < z
    → round (z / one) ≡ z / one
    → compare_int_finite (pos n) (pos z) ≡ compare (one * n) z
unfolding compare_int_finite of_int trunc
positive-exact n z hn hz h =
    let (whole, part, below, above, outside) = unit_facts n z in
    ground (
      arith,
      signed-minus (one * two63) limit_pos,
      ap (λ t. one * t) h,
      hz,
      hn,
      ap (λ t. one * t) {x = n} {y = z / one},
    )

positive-floor :
    (q n z : ℕ)
    → (if eq_int (of_int (signed true q)) (negsuc z)
        then compare_int (pos n) (signed true q)
        else if lt_int (dec (signed true q)) (pos n)
        then Ordering.gt
        else Ordering.lt)
      ≡ Ordering.gt
unfolding of_int dec
positive-floor zero n z = refl
positive-floor (suc p) n z = ground arith

-- An integer that is not negative against a negative float.
positive-negative_exact : (n z : ℕ) → compare_int_finite (pos n) (negsuc z) ≡ Ordering.gt
unfolding compare_int_finite trunc
positive-negative_exact n z = ground (arith, positive-floor (suc z / one) n z)

-- A negative integer against a positive float, or 0.
negative-positive_exact : (n z : ℕ) → compare_int_finite (negsuc n) (pos z) ≡ Ordering.lt
unfolding compare_int_finite of_int trunc
negative-positive_exact n z = ground (arith, signed-minus (one * two63) limit_pos)

-- From the whole part on: `q` is that of the magnitude.
negative-floor :
    (q n z r : ℕ)
    → one * q + r ≡ suc z
    → (suc n < q → one * suc n < suc z)
    → (q < suc n → suc z < one * suc n)
    → round q ≡ q
    → (if eq_int (of_int (signed true q)) (negsuc z)
        then compare_int (negsuc n) (signed true q)
        else if lt_int (dec (signed true q)) (negsuc n)
        then Ordering.gt
        else Ordering.lt)
      ≡ compare (suc z) (one * suc n)
unfolding of_int dec
negative-floor zero n z r whole below above h = ground (arith, above (omega arith))
negative-floor (suc p) n z r whole below above h =
    let product = ap (λ t. one * t) h in
    ground (
      arith,
      signed-minus (one * suc p) (omega (arith, one_pos)),
      signed-minus (one * round (suc p)) (omega (arith, one_pos, product)),
      product,
      whole,
      below,
      above,
      ap (λ t. one * t) {x = suc n} {y = suc p},
    )

negative-exact :
    (n z : ℕ)
    → n < two63
    → round (suc z / one) ≡ suc z / one
    → compare_int_finite (negsuc n) (negsuc z) ≡ compare (suc z) (one * suc n)
unfolding compare_int_finite trunc
negative-exact n z hn h =
    let (whole, part, below, above, outside) = unit_facts (suc n) (suc z) in
    let inside = negative-floor (suc z / one) n z (suc z % one) whole below above h in
    ground (
      arith,
      signed-minus (one * two63) limit_pos,
      inside,
      limit_pos,
      mul-le-mul_left {m = suc n} {n = two63} one (omega (arith, hn)),
    )

zero-exact : (n : ℕ) → compare_int_finite (pos n) (pos 0) ≡ compare (one * n) 0
unfolding compare_int_finite
zero-exact zero = ground arith
zero-exact (suc n) = ground (arith, mul-le-mul_left {m = 1} {n = one} (suc n) one_pos)

-- The finite case, for a float given by its fields.
finite-exact :
    (i : ℤ) (minus : Bool) (z : ℕ)
    → IsInt64 i
    → round (z / one) ≡ z / one
    → compare_int_finite i (signed minus z) ≡ compare_int (scale one i) (signed minus z)
finite-exact (pos n) false zero hi h = zero-exact n
finite-exact (pos n) false (suc z) hi h = positive-exact n (suc z) hi (omega arith) h
finite-exact (pos n) true zero hi h = zero-exact n
finite-exact (pos n) true (suc z) hi h = positive-negative_exact n z
finite-exact (negsuc n) false z hi h = negative-positive_exact n z
finite-exact (negsuc n) true zero hi h = negative-positive_exact n 0
finite-exact (negsuc n) true (suc z) hi h =
    rw (negative-exact n z hi h) (ground (arith, mul-le-mul_left {m = 1} {n = one} (suc n) one_pos))

-- An int64 and a float64 compare by the exact numbers they stand for, infinities and NaN included:
-- the int is never rounded to a float.
pub compare_int_float-exact :
    (i : ℤ) (bits : ℕ)
    → IsInt64 i
    → compare_int_float i bits ≡ compare_numbers (fin (scale one i)) (number bits)
unfolding compare_int_float compare_numbers number
compare_int_float-exact i bits hi =
    let m = bits % 2 ^ 52 in
    let e = bits / 2 ^ 52 % 2 ^ 11 in
    let minus = nat_beq (bits / 2 ^ 63) 1 in
    ground
      (arith, finite-exact i minus (magnitude e m) hi (round-whole e m (mod-lt bits (omega arith))))
