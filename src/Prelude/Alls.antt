-- ===== src/Prelude/Alls.antt =====
-- What holds of every member of a list, or of every entry of a map.
use mini_graph_db.Prelude.Tests.{Eq, if◌then◌else◌, ◌==◌}
use mini_graph_db.Prelude.Lists.{All, take, get_elem?}
use mini_graph_db.Prelude.Assoc.{Assoc, insert}
use Prim.Native.Nat.{ℕ, zero, suc}
use mathlib.Core.Path.{◌≡◌, subst}
use mathlib.Core.Bool.{Bool, true, false}
use mathlib.Core.Option.{some}
use mathlib.Core.List.{List, [], ◌∷◌, ◌++◌}

pub All-append {ℓ κ} :
    {A : Type ℓ} (P : A → Type κ) (xs : List A) (y : A) → All P xs → P y → All P (xs ++ y ∷ [])
All-append P [] y hx hy = (hy, tt)
All-append P (x ∷ xs) y hx hy = (hx.0, All-append P xs y hx.1 hy)

pub All-take {ℓ κ} :
    {A : Type ℓ} (P : A → Type κ) (n : ℕ) (xs : List A) → All P xs → All P (take n xs)
All-take P zero xs h = tt
All-take P (suc n) [] h = tt
All-take P (suc n) (x ∷ xs) h = (h.0, All-take P n xs h.1)

pub All-get_elem? {ℓ κ} :
    {A : Type ℓ} (P : A → Type κ) (n : ℕ) (xs : List A) (a : A)
    → All P xs
    → get_elem? xs n ≡ some a
    → P a
All-get_elem? P n [] a h e = cc
All-get_elem? P zero (x ∷ xs) a h e = let same : x ≡ a = cc in subst P same h.0
All-get_elem? P (suc n) (x ∷ xs) a h e = All-get_elem? P n xs a h.1 e

if-All {ℓ κ} :
    {A : Type ℓ} (P : A → Type κ) (c : Bool) (x y : A) (l : List A)
    → P x
    → P y
    → All P l
    → (r : List A) → All P r
    → All P (if c then x ∷ l else y ∷ r)
if-All P true x y l hx hy hl r hr = (hx, hl)
if-All P false x y l hx hy hl r hr = (hy, hr)

pub All-insert {ℓ κ μ} :
    {K : Type ℓ} {V : Type κ} ⦃e : Eq K⦄ (P : K × V → Type μ) (k : K) (v : V) (l : Assoc K V)
    → P (k, v)
    → All P l
    → All P (insert k v l)
unfolding insert
All-insert P k v [] h all = (h, tt)
All-insert P k v ((j, w) ∷ l) h all =
    if-All P (j == k) (k, v) (j, w) l h all.0 all.1 (insert k v l) (All-insert P k v l h all.1)
