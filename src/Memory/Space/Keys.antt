-- ===== src/Memory/Space/Keys.antt =====
-- The sorted key slice of `space`: what `put` and `del` do to it.
use mini_graph_db.Prelude.{
  zero, suc, Bool, true, false, List, [], ◌∷◌, Ordering, if◌then◌else◌, All, ◌≡◌, refl, arith, ◌||◌,
  Ordering-cases, inl, inr, ℕ,
}
use mini_graph_db.Prelude.Bytes.{
  Bytes, compare_bytes, bytes_beq, bytes_beq_iff, compare_bytes-eq, compare_bytes-flip,
  compare_bytes_trans, compare_bytes_refl,
}
use mini_graph_db.Memory.Space.{search_by, at_least, stands_at, insert_at, delete_at}

abbrev pub IsBelow : Bytes → Bytes → Type 0
IsBelow a b = compare_bytes a b ≡ Ordering.lt

-- Strictly ascending.
abbrev pub IsSorted : List Bytes → Type 0
IsSorted [] = Unit {0}
IsSorted (k ∷ ks) = All (IsBelow k) ks × IsSorted ks

abbrev pub has : Bytes → List Bytes → Bool
has j [] = false
has j (k ∷ ks) = bytes_beq k j || has j ks

All-IsBelow :
    (a b : Bytes) (ks : List Bytes) → IsBelow a b → All (IsBelow b) ks → All (IsBelow a) ks
All-IsBelow a b [] h all = tt
All-IsBelow a b (k ∷ ks) h all = (compare_bytes_trans a b k h all.0, All-IsBelow a b ks h all.1)

pub has-IsBelow : (a : Bytes) (ks : List Bytes) → All (IsBelow a) ks → has a ks ≡ false
has-IsBelow a [] all = refl
has-IsBelow a (k ∷ ks) all =
    ground (arith, has-IsBelow a ks all.1, all.0, bytes_beq_iff k a, compare_bytes_refl a)

IsBelow-flip : (k key : Bytes) → compare_bytes k key ≡ Ordering.gt → IsBelow key k
IsBelow-flip k key gt = ground (arith, compare_bytes-flip k key)

-- The index found by `sort.Search` holds the key exactly when the key is in the slice.
pub stands_at-search :
    (key : Bytes) (ks : List Bytes)
    → IsSorted ks
    → stands_at (search_by (at_least key) ks) key ks ≡ has key ks
unfolding stands_at search_by
stands_at-search key [] s = refl
stands_at-search key (k ∷ ks) s = elim (Ordering-cases (compare_bytes k key)) [
  | inl lt ↦
      ground (arith, lt, stands_at-search key ks s.1, bytes_beq_iff k key, compare_bytes_refl k)
  | inr (inl eq) ↦ ground (arith, eq, compare_bytes-eq k key eq, bytes_beq_iff k key)
  | inr (inr gt) ↦ ground (
    arith,
    gt,
    bytes_beq_iff k key,
    has-IsBelow key ks (All-IsBelow key k ks (IsBelow-flip k key gt) s.0),
  )
]

pub has-insert_at :
    (key j : Bytes) (ks : List Bytes)
    → has j (insert_at (search_by (at_least key) ks) key ks) ≡ (bytes_beq key j || has j ks)
unfolding insert_at search_by
has-insert_at key j [] = refl
has-insert_at key j (k ∷ ks) = ground (arith, has-insert_at key j ks)

All-insert_at :
    (a key : Bytes) (ks : List Bytes)
    → IsBelow a key
    → All (IsBelow a) ks
    → All (IsBelow a) (insert_at (search_by (at_least key) ks) key ks)
unfolding insert_at search_by
All-insert_at a key [] h all = (h, tt)
All-insert_at a key (k ∷ ks) h all = ground (arith, All-insert_at a key ks h all.1)

insert_at-below :
    (key k : Bytes) (ks : List Bytes)
    → IsBelow k key
    → insert_at (search_by (at_least key) (k ∷ ks)) key (k ∷ ks)
      ≡ k ∷ insert_at (search_by (at_least key) ks) key ks
unfolding insert_at search_by
insert_at-below key k ks h = ground arith

insert_at-above :
    (key k : Bytes) (ks : List Bytes)
    → compare_bytes k key ≡ Ordering.gt
    → insert_at (search_by (at_least key) (k ∷ ks)) key (k ∷ ks) ≡ key ∷ k ∷ ks
unfolding insert_at search_by
insert_at-above key k ks h = ground arith

pub insert_at-IsSorted :
    (key : Bytes) (ks : List Bytes)
    → IsSorted ks
    → has key ks ≡ false
    → IsSorted (insert_at (search_by (at_least key) ks) key ks)
insert_at-IsSorted key [] s h = unfold insert_at search_by in (tt, tt)
insert_at-IsSorted key (k ∷ ks) s h = elim (Ordering-cases (compare_bytes k key)) [
  | inl lt ↦
      rw (insert_at-below key k ks lt)
        (All-insert_at k key ks lt s.0, insert_at-IsSorted key ks s.1 (ground arith))
  | inr (inl eq) ↦ absurd (ground (arith, compare_bytes-eq k key eq, bytes_beq_iff k key))
  | inr (inr gt) ↦
      let below : IsBelow key k = IsBelow-flip k key gt in
      rw (insert_at-above key k ks gt) ((below, All-IsBelow key k ks below s.0), s)
]

All-delete_at :
    (a : Bytes) (i : ℕ) (ks : List Bytes) → All (IsBelow a) ks → All (IsBelow a) (delete_at i ks)
unfolding delete_at
All-delete_at a zero [] all = tt
All-delete_at a (suc i) [] all = tt
All-delete_at a zero (k ∷ ks) all = all.1
All-delete_at a (suc i) (k ∷ ks) all = (all.0, All-delete_at a i ks all.1)

pub delete_at-IsSorted : (i : ℕ) (ks : List Bytes) → IsSorted ks → IsSorted (delete_at i ks)
unfolding delete_at
delete_at-IsSorted zero [] s = tt
delete_at-IsSorted (suc i) [] s = tt
delete_at-IsSorted zero (k ∷ ks) s = s.1
delete_at-IsSorted (suc i) (k ∷ ks) s = (All-delete_at k i ks s.0, delete_at-IsSorted i ks s.1)

pub has-delete_at :
    (key j : Bytes) (ks : List Bytes)
    → IsSorted ks
    → has key ks ≡ true
    → has j (delete_at (search_by (at_least key) ks) ks)
      ≡ (if bytes_beq key j then false else has j ks)
unfolding delete_at search_by
has-delete_at key j [] s h = cc
has-delete_at key j (k ∷ ks) s h = elim (Ordering-cases (compare_bytes k key)) [
  | inl lt ↦ ground (
    arith,
    lt,
    has-delete_at key j ks s.1,
    bytes_beq_iff k key,
    bytes_beq_iff k j,
    bytes_beq_iff key j,
    compare_bytes_refl k,
  )
  | inr (inl eq) ↦ ground (
    arith,
    eq,
    compare_bytes-eq k key eq,
    bytes_beq_iff k j,
    bytes_beq_iff key j,
    has-IsBelow k ks s.0,
  )
  | inr (inr gt) ↦ absurd (
      ground (
        arith,
        gt,
        bytes_beq_iff k key,
        compare_bytes_refl k,
        has-IsBelow key ks (All-IsBelow key k ks (IsBelow-flip k key gt) s.0),
      ))
]
