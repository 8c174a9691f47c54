-- ===== src/Value/Flip.antt =====
-- A comparison with its arguments swapped gives the opposite result.
use mini_graph_db.Prelude.{ℕ, ◌≡◌, refl, compare, Ordering, Bool, List, [], ◌∷◌}
use mini_graph_db.Prelude.{Option, none, some, arith}
use mini_graph_db.Prelude.Bytes.{flip}
use mini_graph_db.Prelude.Int.{ℤ, pos, negsuc, compare_int}
use mini_graph_db.Value.Compare.{and_then, compare_bool, compare_zone, compare_paths}
use mini_graph_db.Value.Number.{Number, neg_inf, fin, pos_inf, nan, compare_numbers}

pub and_then-flip : (a b : Ordering) → flip (and_then a b) ≡ and_then (flip a) (flip b)
and_then-flip Ordering.lt b = refl
and_then-flip Ordering.eq b = refl
and_then-flip Ordering.gt b = refl

pub compare_nat-flip : (x y : ℕ) → compare y x ≡ flip (compare x y)
compare_nat-flip x y = ground arith

pub int-flip : (x y : ℤ) → compare_int y x ≡ flip (compare_int x y)
int-flip (pos x) (pos y) = ground arith
int-flip (negsuc x) (negsuc y) = ground arith
int-flip (pos x) (negsuc y) = refl
int-flip (negsuc x) (pos y) = refl

pub bool-flip : (x y : Bool) → compare_bool y x ≡ flip (compare_bool x y)
bool-flip x y = ground arith

pub zone-flip : (x y : Option ℤ) → compare_zone y x ≡ flip (compare_zone x y)
zone-flip (some x) (some y) = int-flip x y
zone-flip none none = refl
zone-flip none (some y) = refl
zone-flip (some x) none = refl

pub number-flip : (x y : Number) → compare_numbers y x ≡ flip (compare_numbers x y)
unfolding compare_numbers
number-flip (fin x) (fin y) = int-flip x y
number-flip neg_inf neg_inf = refl
number-flip pos_inf pos_inf = refl
number-flip nan nan = refl
number-flip x y = refl

pub paths-flip :
    (an ae bn be : List ℕ) → compare_paths bn be an ae ≡ flip (compare_paths an ae bn be)
unfolding compare_paths
paths-flip [] ae [] be = refl
paths-flip [] ae (y ∷ bn) be = refl
paths-flip (x ∷ an) ae [] be = refl
paths-flip (x ∷ an) [] (y ∷ bn) [] = ground (arith, paths-flip an [] bn [])
paths-flip (x ∷ an) [] (y ∷ bn) (f ∷ be) = ground arith
paths-flip (x ∷ an) (e ∷ ae) (y ∷ bn) [] = ground arith
paths-flip (x ∷ an) (e ∷ ae) (y ∷ bn) (f ∷ be) = ground (arith, paths-flip an ae bn be)
