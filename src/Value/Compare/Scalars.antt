-- ===== src/Value/Compare/Scalars.antt =====
-- internal/value/compare.go: the order of the values that hold no values.
use mini_graph_db.Prelude.{ℕ, suc, ◌-◌, ◌*◌, ◌≡◌, refl, sym, ap, ◌∙◌, compare, arith}
use mini_graph_db.Prelude.Bytes.{compare_bytes-flip, flip}
use mini_graph_db.Prelude.Int.{ℤ, pos, negsuc, compare_int, scale}
use mini_graph_db.Value.{
  Scalar, null, bool, int, float, string, bytes, date, date_time, duration, node, edge, path,
  scalar_kind, float_of,
}
use mini_graph_db.Value.Number.{Number, fin, number, one, compare_numbers, compare_float}
use mini_graph_db.Value.Number.Exact.{IsInt64, one_pos, mul-step, compare_int_float-exact}
use mini_graph_db.Value.Compare.{kind_rank, compare_number, compare_kind}
use mini_graph_db.Value.Flip.{
  compare_nat-flip, int-flip, number-flip, zone-flip, bool-flip, paths-flip, and_then-flip,
}
use native.Mathlib.Nat.{mul-le-mul_left}
use mini_graph_db.Value.Chain.{
  Chain, chain_of, and_then-Chain, nat-Chain, bool-Chain, int-Chain, number-Chain, bytes-Chain,
  zone-Chain, paths-Chain,
}

-- The integers of the numeric family are int64.
abbrev pub HasInt64 : Scalar → Type 0
HasInt64 (int i) = IsInt64 i
HasInt64 _ = Unit

-- The number of the numeric family.
abbrev number_of : Scalar → Number
number_of (int i) = fin (scale one i)
number_of s = number (float_of s)

scale-nat : (a b : ℕ) → compare (one * a) (one * b) ≡ compare a b
scale-nat a b = ground (
  arith,
  one_pos,
  mul-le-mul_left {m = suc a} {n = b} one,
  mul-le-mul_left {m = suc b} {n = a} one,
  ap (λ t. one * t) {x = a} {y = b},
)

scale-pred : (a b : ℕ) → compare (one * suc a - 1) (one * suc b - 1) ≡ compare a b
scale-pred a b = ground (
  arith,
  one_pos,
  mul-step one (suc a) (suc b) (one * suc b),
  mul-step one (suc b) (suc a) (one * suc a),
  ap (λ t. one * t) {x = suc a} {y = suc b},
  mul-le-mul_left {m = 1} {n = suc a} one (omega arith),
  mul-le-mul_left {m = 1} {n = suc b} one (omega arith),
)

scale-compare : (a b : ℤ) → compare_int (scale one a) (scale one b) ≡ compare_int a b
scale-compare (pos a) (pos b) = scale-nat a b
scale-compare (pos a) (negsuc b) = refl
scale-compare (negsuc a) (pos b) = refl
scale-compare (negsuc a) (negsuc b) = scale-pred b a

scaled-fin : (i j : ℤ) → compare_numbers (fin (scale one i)) (fin (scale one j)) ≡ compare_int i j
unfolding compare_numbers
scaled-fin i j = scale-compare i j

compare_number-exact :
    (a b : Scalar)
    → HasInt64 a
    → HasInt64 b
    → kind_rank (scalar_kind a) ≡ 2
    → kind_rank (scalar_kind b) ≡ 2
    → compare_number a b ≡ compare_numbers (number_of a) (number_of b)
unfolding compare_number compare_float
compare_number-exact (int i) (int j) ha hb ra rb = sym (scaled-fin i j)
compare_number-exact (int i) (float f) ha hb ra rb = compare_int_float-exact i f ha
compare_number-exact (float f) (int j) ha hb ra rb =
    ap flip (compare_int_float-exact j f hb) ∙ sym (number-flip (fin (scale one j)) (number f))
compare_number-exact (float f) (float g) ha hb ra rb = refl
compare_number-exact _ _ ha hb ra rb = absurd (omega (arith, ra, rb))

numeric-flip :
    (a b : Scalar)
    → HasInt64 a
    → HasInt64 b
    → kind_rank (scalar_kind a) ≡ 2
    → kind_rank (scalar_kind b) ≡ 2
    → compare_number b a ≡ flip (compare_number a b)
numeric-flip a b ha hb ra rb =
    rw (compare_number-exact a b ha hb ra rb, compare_number-exact b a hb ha rb ra)
      (number-flip (number_of a) (number_of b))

pub compare_kind-flip :
    (a b : Scalar)
    → HasInt64 a
    → HasInt64 b
    → kind_rank (scalar_kind a) ≡ kind_rank (scalar_kind b)
    → compare_kind (scalar_kind b) b a ≡ flip (compare_kind (scalar_kind a) a b)
unfolding compare_kind
compare_kind-flip null null ha hb r = refl
compare_kind-flip (bool x) (bool y) ha hb r = bool-flip x y
compare_kind-flip (string x) (string y) ha hb r = compare_bytes-flip x y
compare_kind-flip (bytes x) (bytes y) ha hb r = compare_bytes-flip x y
compare_kind-flip (date x) (date y) ha hb r = int-flip x y
compare_kind-flip (date_time x v) (date_time y w) ha hb r =
    rw (int-flip x y, zone-flip v w) (sym (and_then-flip _ _))
compare_kind-flip (duration x d s) (duration y e t) ha hb r =
    rw
      (
        int-flip x y,
        int-flip d e,
        int-flip s t,
        and_then-flip (compare_int x y) _,
        and_then-flip (compare_int d e) _,
      )
      refl
compare_kind-flip (node x) (node y) ha hb r = compare_nat-flip x y
compare_kind-flip (edge x) (edge y) ha hb r = compare_nat-flip x y
compare_kind-flip (path x d) (path y e) ha hb r = paths-flip x d y e
compare_kind-flip (int i) (int j) ha hb r = numeric-flip (int i) (int j) ha hb refl refl
compare_kind-flip (int i) (float f) ha hb r = numeric-flip (int i) (float f) ha hb refl refl
compare_kind-flip (float f) (int j) ha hb r = numeric-flip (float f) (int j) ha hb refl refl
compare_kind-flip (float f) (float g) ha hb r = numeric-flip (float f) (float g) ha hb refl refl
compare_kind-flip _ _ ha hb r = absurd (omega (arith, r))

numeric-Chain :
    (a b c : Scalar)
    → HasInt64 a
    → HasInt64 b
    → HasInt64 c
    → kind_rank (scalar_kind a) ≡ 2
    → kind_rank (scalar_kind b) ≡ 2
    → kind_rank (scalar_kind c) ≡ 2
    → Chain (compare_number a b) (compare_number b c) (compare_number a c)
numeric-Chain a b c ha hb hc ra rb rc =
    rw
      (
        compare_number-exact a b ha hb ra rb,
        compare_number-exact b c hb hc rb rc,
        compare_number-exact a c ha hc ra rc,
      )
      (number-Chain (number_of a) (number_of b) (number_of c))

-- Values of one rank.
pub compare_kind-Chain :
    (a b c : Scalar)
    → HasInt64 a
    → HasInt64 b
    → HasInt64 c
    → kind_rank (scalar_kind a) ≡ kind_rank (scalar_kind b)
    → kind_rank (scalar_kind b) ≡ kind_rank (scalar_kind c)
    → Chain
        (compare_kind (scalar_kind a) a b)
        (compare_kind (scalar_kind b) b c)
        (compare_kind (scalar_kind a) a c)
unfolding compare_kind
compare_kind-Chain null null null ha hb hc r q =
    chain_of (λ h. refl) (λ h. refl) (λ h k. h) (λ h k. h)
compare_kind-Chain (bool x) (bool y) (bool z) ha hb hc r q = bool-Chain x y z
compare_kind-Chain (string x) (string y) (string z) ha hb hc r q = bytes-Chain x y z
compare_kind-Chain (bytes x) (bytes y) (bytes z) ha hb hc r q = bytes-Chain x y z
compare_kind-Chain (date x) (date y) (date z) ha hb hc r q = int-Chain x y z
compare_kind-Chain (date_time x u) (date_time y v) (date_time z w) ha hb hc r q =
    and_then-Chain _ _ _ _ _ _ (int-Chain x y z) (λ _ _. zone-Chain u v w)
compare_kind-Chain (duration x d s) (duration y e t) (duration z f u) ha hb hc r q =
    and_then-Chain _ _ _ _ _ _ (int-Chain x y z)
      (λ _ _. and_then-Chain _ _ _ _ _ _ (int-Chain d e f) (λ _ _. int-Chain s t u))
compare_kind-Chain (node x) (node y) (node z) ha hb hc r q = nat-Chain x y z
compare_kind-Chain (edge x) (edge y) (edge z) ha hb hc r q = nat-Chain x y z
compare_kind-Chain (path x d) (path y e) (path z f) ha hb hc r q = paths-Chain x d y e z f
compare_kind-Chain (int x) (int y) (int z) ha hb hc r q =
    numeric-Chain (int x) (int y) (int z) ha hb hc refl refl refl
compare_kind-Chain (int x) (int y) (float z) ha hb hc r q =
    numeric-Chain (int x) (int y) (float z) ha hb hc refl refl refl
compare_kind-Chain (int x) (float y) (int z) ha hb hc r q =
    numeric-Chain (int x) (float y) (int z) ha hb hc refl refl refl
compare_kind-Chain (int x) (float y) (float z) ha hb hc r q =
    numeric-Chain (int x) (float y) (float z) ha hb hc refl refl refl
compare_kind-Chain (float x) (int y) (int z) ha hb hc r q =
    numeric-Chain (float x) (int y) (int z) ha hb hc refl refl refl
compare_kind-Chain (float x) (int y) (float z) ha hb hc r q =
    numeric-Chain (float x) (int y) (float z) ha hb hc refl refl refl
compare_kind-Chain (float x) (float y) (int z) ha hb hc r q =
    numeric-Chain (float x) (float y) (int z) ha hb hc refl refl refl
compare_kind-Chain (float x) (float y) (float z) ha hb hc r q =
    numeric-Chain (float x) (float y) (float z) ha hb hc refl refl refl
compare_kind-Chain _ _ _ ha hb hc r q = absurd (omega (arith, r, q))
