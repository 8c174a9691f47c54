-- ===== src/Value/Chain.antt =====
-- Three results of a comparison that fit together: that of x and y, of y and z, and of x and z.
use mini_graph_db.Prelude.{ℕ, ◌≡◌, refl, compare, Ordering, Bool, List, [], ◌∷◌}
use mini_graph_db.Prelude.{Option, some, arith}
use mini_graph_db.Prelude.Bytes.{Bytes, compare_bytes}
use mini_graph_db.Prelude.Int.{ℤ, pos, negsuc, compare_int}
use mini_graph_db.Value.Compare.{and_then, compare_bool, compare_zone, compare_paths}
use mini_graph_db.Value.Number.{Number, neg_inf, fin, pos_inf, nan, compare_numbers}

pub record Chain (xy yz xz : Ordering) : Type 0 where
  pub same_left : xy ≡ Ordering.eq → xz ≡ yz
  pub same_right : yz ≡ Ordering.eq → xz ≡ xy
  pub less : xy ≡ Ordering.lt → yz ≡ Ordering.lt → xz ≡ Ordering.lt
  pub greater : xy ≡ Ordering.gt → yz ≡ Ordering.gt → xz ≡ Ordering.gt

abbrev pub chain_of :
    {xy yz xz : Ordering}
    → (xy ≡ Ordering.eq → xz ≡ yz)
    → (yz ≡ Ordering.eq → xz ≡ xy)
    → (xy ≡ Ordering.lt → yz ≡ Ordering.lt → xz ≡ Ordering.lt)
    → (xy ≡ Ordering.gt → yz ≡ Ordering.gt → xz ≡ Ordering.gt)
    → Chain xy yz xz
chain_of a b c d = record { same_left = a; same_right = b; less = c; greater = d }

-- The second comparison matters only where the first finds both pairs equal.
pub and_then-Chain :
    (a b c d e f : Ordering)
    → Chain a b c
    → (a ≡ Ordering.eq → b ≡ Ordering.eq → Chain d e f)
    → Chain (and_then a d) (and_then b e) (and_then c f)
and_then-Chain Ordering.eq Ordering.eq c d e f first second =
    rw (first.same_left refl) (second refl refl)
and_then-Chain a b c d e f first second =
    chain_of (ground arith) (ground arith) (ground arith) (ground arith)

pub nat-Chain : (x y z : ℕ) → Chain (compare x y) (compare y z) (compare x z)
nat-Chain x y z = chain_of (ground arith) (ground arith) (ground arith) (ground arith)

pub bool-Chain : (x y z : Bool) → Chain (compare_bool x y) (compare_bool y z) (compare_bool x z)
bool-Chain x y z = chain_of (ground arith) (ground arith) (ground arith) (ground arith)

pub int-Chain : (x y z : ℤ) → Chain (compare_int x y) (compare_int y z) (compare_int x z)
int-Chain (pos x) (pos y) (pos z) = nat-Chain x y z
int-Chain (negsuc x) (negsuc y) (negsuc z) =
    chain_of (ground arith) (ground arith) (ground arith) (ground arith)
int-Chain x y z = chain_of (ground arith) (ground arith) (ground arith) (ground arith)

-- The rank of what is not finite, and the number of what is.
order_class : Number → ℕ
order_class neg_inf = 0
order_class (fin z) = 1
order_class pos_inf = 2
order_class nan = 3

abbrev finite_part : Number → ℤ
finite_part (fin z) = z
finite_part _ = pos 0

compare_numbers-split :
    (x y : Number)
    → compare_numbers x y
      ≡ and_then
          (compare (order_class x) (order_class y))
          (compare_int (finite_part x) (finite_part y))
unfolding compare_numbers order_class
compare_numbers-split neg_inf neg_inf = refl
compare_numbers-split (fin x) (fin y) = refl
compare_numbers-split pos_inf pos_inf = refl
compare_numbers-split nan nan = refl
compare_numbers-split x y = refl

pub number-Chain :
    (x y z : Number) → Chain (compare_numbers x y) (compare_numbers y z) (compare_numbers x z)
number-Chain x y z =
    rw (compare_numbers-split x y, compare_numbers-split y z, compare_numbers-split x z)
      (and_then-Chain _ _ _ _ _ _ (nat-Chain (order_class x) (order_class y) (order_class z))
        (λ _ _. int-Chain (finite_part x) (finite_part y) (finite_part z)))

compare_bytes-cons :
    (x y : ℕ) (xs ys : Bytes)
    → compare_bytes (x ∷ xs) (y ∷ ys) ≡ and_then (compare x y) (compare_bytes xs ys)
unfolding compare_bytes
compare_bytes-cons x y xs ys = ground arith

pub bytes-Chain :
    (x y z : Bytes) → Chain (compare_bytes x y) (compare_bytes y z) (compare_bytes x z)
unfolding compare_bytes
bytes-Chain (x ∷ xs) (y ∷ ys) (z ∷ zs) =
    rw (compare_bytes-cons x y xs ys, compare_bytes-cons y z ys zs, compare_bytes-cons x z xs zs)
      (and_then-Chain _ _ _ _ _ _ (nat-Chain x y z) (λ _ _. bytes-Chain xs ys zs))
bytes-Chain x y z = chain_of (ground arith) (ground arith) (ground arith) (ground arith)

pub zone-Chain : (x y z : Option ℤ) → Chain (compare_zone x y) (compare_zone y z) (compare_zone x z)
zone-Chain (some x) (some y) (some z) = int-Chain x y z
zone-Chain x y z = chain_of (ground arith) (ground arith) (ground arith) (ground arith)

-- A missing edge sorts before any edge.
abbrev compare_head : List ℕ → List ℕ → Ordering
compare_head [] [] = Ordering.eq
compare_head [] (f ∷ be) = Ordering.lt
compare_head (e ∷ ae) [] = Ordering.gt
compare_head (e ∷ ae) (f ∷ be) = compare e f

head-Chain : (x y z : List ℕ) → Chain (compare_head x y) (compare_head y z) (compare_head x z)
head-Chain (x ∷ xs) (y ∷ ys) (z ∷ zs) = nat-Chain x y z
head-Chain x y z = chain_of (ground arith) (ground arith) (ground arith) (ground arith)

abbrev tail : List ℕ → List ℕ
tail [] = []
tail (x ∷ xs) = xs

pub compare_paths-cons :
    (x y : ℕ) (an ae bn be : List ℕ)
    → compare_paths (x ∷ an) ae (y ∷ bn) be
      ≡ and_then
          (compare x y)
          (and_then (compare_head ae be) (compare_paths an (tail ae) bn (tail be)))
unfolding compare_paths
compare_paths-cons x y an [] bn [] = refl
compare_paths-cons x y an [] bn (f ∷ be) = refl
compare_paths-cons x y an (e ∷ ae) bn [] = refl
compare_paths-cons x y an (e ∷ ae) bn (f ∷ be) = refl

pub paths-Chain :
    (an ae bn be cn ce : List ℕ)
    → Chain (compare_paths an ae bn be) (compare_paths bn be cn ce) (compare_paths an ae cn ce)
unfolding compare_paths
paths-Chain (x ∷ an) ae (y ∷ bn) be (z ∷ cn) ce =
    rw
      (
        compare_paths-cons x y an ae bn be,
        compare_paths-cons y z bn be cn ce,
        compare_paths-cons x z an ae cn ce,
      )
      (and_then-Chain _ _ _ _ _ _ (nat-Chain x y z) (λ _ _.
        and_then-Chain _ _ _ _ _ _ (head-Chain ae be ce)
          (λ _ _. paths-Chain an (tail ae) bn (tail be) cn (tail ce))))
paths-Chain [] ae [] be [] ce = chain_of (ground arith) (ground arith) (ground arith) (ground arith)
paths-Chain [] ae [] be (z ∷ cn) ce =
    chain_of (ground arith) (ground arith) (ground arith) (ground arith)
paths-Chain [] ae (y ∷ bn) be [] ce =
    chain_of (ground arith) (ground arith) (ground arith) (ground arith)
paths-Chain [] ae (y ∷ bn) be (z ∷ cn) ce =
    chain_of (ground arith) (ground arith) (ground arith) (ground arith)
paths-Chain (x ∷ an) ae [] be [] ce =
    chain_of (ground arith) (ground arith) (ground arith) (ground arith)
paths-Chain (x ∷ an) ae [] be (z ∷ cn) ce =
    chain_of (ground arith) (ground arith) (ground arith) (ground arith)
paths-Chain (x ∷ an) ae (y ∷ bn) be [] ce =
    chain_of (ground arith) (ground arith) (ground arith) (ground arith)
