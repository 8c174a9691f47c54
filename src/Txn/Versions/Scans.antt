-- ===== src/Txn/Versions/Scans.antt =====
-- `loadChain` over an ordered scan: what a write to keyspace V changes of it.
use mini_graph_db.Prelude.{
  true, false, Option, none, some, List, [], ◌∷◌, ◌++◌, ◌≡◌, refl, arith, All, length, drop,
  Ordering, ◌==◌, if◌then◌else◌, ◌∙◌, sym, Bool-cases, Ordering-cases, inl, inr, ◌⊎◌, ◌≢◌,
}
use mini_graph_db.Prelude.Bytes.{
  Bytes, bytes_eq, bytes_beq_iff, uint64, compare_bytes, compare_bytes_refl, compare_bytes-flip,
  compare_bytes-eq,
}
use mini_graph_db.Prelude.Assoc.{lookup}
use mini_graph_db.Storage.{ok, Result-cases}
use mini_graph_db.Memory.Space.{at_least}
use mini_graph_db.Memory.Space.Keys.{IsBelow}
use mini_graph_db.Memory.Snapshot.{Item, insert_item}
use mini_graph_db.Memory.Snapshot.Items.{
  IsOrdered, AllAbove, AllAbove-trans, IsBelow-of_gt, lookup-insert_item, insert_item-IsOrdered,
}
use mini_graph_db.Txn.Version.{Head, decode_chain}
use mini_graph_db.Txn.Versions.{has_prefix, is_chain_of, collect}

lookup-AllAbove : (k : Bytes) (l : List Item) → AllAbove k l → lookup k l ≡ none
unfolding lookup
lookup-AllAbove k [] all = refl
lookup-AllAbove k ((j, w) ∷ l) all =
    ground (arith, lookup-AllAbove k l all.1, all.0, bytes_beq_iff j k, compare_bytes_refl k)

pub lookup-below :
    (a k v : Bytes) (l : List Item) → AllAbove k l → IsBelow a k → lookup a ((k, v) ∷ l) ≡ none
unfolding lookup
lookup-below a k v l all h = ground (
  arith,
  bytes_beq_iff k a,
  compare_bytes_refl k,
  lookup-AllAbove a l (AllAbove-trans a k l h all),
  h,
)

head_differs :
    (k v : Bytes) (a : List Item) (j w : Bytes) (b : List Item)
    → lookup k ((k, v) ∷ a) ≡ lookup k ((j, w) ∷ b)
    → lookup k ((j, w) ∷ b) ≡ none
    → ⊥
unfolding lookup
head_differs k v a j w b same gone = ground (arith, bytes_beq_iff k k)

head_value :
    (k v : Bytes) (a : List Item) (j w : Bytes) (b : List Item)
    → k ≡ j
    → lookup k ((k, v) ∷ a) ≡ lookup k ((j, w) ∷ b)
    → v ≡ w
unfolding lookup
head_value k v a j w b names same = ground (arith, bytes_beq_iff k k, bytes_beq_iff j k)

tail_same :
    (k v : Bytes) (a : List Item) (j w : Bytes) (b : List Item)
    → k ≡ j
    → lookup k a ≡ none
    → lookup j b ≡ none
    → (i : Bytes) → lookup i ((k, v) ∷ a) ≡ lookup i ((j, w) ∷ b)
    → lookup i a ≡ lookup i b
unfolding lookup
tail_same k v a j w b names na nb i same = ground (arith, bytes_beq_iff k i, bytes_beq_iff j i)

-- An ordered list is given by what it holds.
pub IsOrdered-ext :
    (a b : List Item) → IsOrdered a → IsOrdered b → ((j : Bytes) → lookup j a ≡ lookup j b) → a ≡ b
IsOrdered-ext [] [] oa ob same = refl
IsOrdered-ext [] ((k, v) ∷ b) oa ob same =
    absurd (unfold lookup in ground (arith, same k, bytes_beq_iff k k))
IsOrdered-ext ((k, v) ∷ a) [] oa ob same =
    absurd (unfold lookup in ground (arith, same k, bytes_beq_iff k k))
IsOrdered-ext ((k, v) ∷ a) ((j, w) ∷ b) oa ob same = elim (Ordering-cases (compare_bytes k j)) [
  | inl lt ↦ absurd (head_differs k v a j w b (same k) (lookup-below k j w b ob.0 lt))
  | inr (inl eq) ↦
      let names : k ≡ j = compare_bytes-eq k j eq in
      let values : v ≡ w = head_value k v a j w b names (same k) in
      let tails : a ≡ b = IsOrdered-ext a b oa.1 ob.1 λ i.
        tail_same k v a j w b names (lookup-AllAbove k a oa.0) (lookup-AllAbove j b ob.0) i
          (same i) in
      ground (arith, names, values, tails)
  | inr (inr gt) ↦
      absurd
        (head_differs j w b k v a (sym (same j)) (lookup-below j k v a oa.0 (IsBelow-of_gt k j gt)))
]

-- A key at or above the prefix that does not have it is above all that have it.
pub above_prefix :
    (p j k : Bytes)
    → at_least p j ≡ true
    → has_prefix p j ≡ false
    → has_prefix p k ≡ true
    → IsBelow k j
unfolding has_prefix compare_bytes
above_prefix [] j k h n y = cc
above_prefix (x ∷ xs) [] k h n y = cc
above_prefix (x ∷ xs) (b ∷ j) [] h n y = cc
above_prefix (x ∷ xs) (b ∷ j) (c ∷ k) h n y = ground (arith, above_prefix xs j k)

-- What holds of each item by its key holds of the list.
pub All-lookup {ℓ} :
    (q : Bytes → Bytes → Type ℓ) (l : List Item)
    → IsOrdered l
    → ((j w : Bytes) → lookup j l ≡ some w → q j w)
    → All (λ p. q p.0 p.1) l
All-lookup q [] o h = tt
All-lookup q ((k, v) ∷ l) o h = (
  h k v (unfold lookup in ground (arith, bytes_beq_iff k k)),
  All-lookup q l o.1 λ j w e.
      h j w (unfold lookup in ground (arith, e, bytes_beq_iff k j, lookup-AllAbove k l o.0)),
)

-- The scan from `p` on, after a write of a key that was not there.
module _ (p k v : Bytes) (f g : Bytes → Option Bytes) (a b : List Item) (oa : IsOrdered a)
    (ob : IsOrdered b) (fa : (j : Bytes) → lookup j a ≡ (if at_least p j then f j else none))
    (gb : (j : Bytes) → lookup j b ≡ (if at_least p j then g j else none))
    (put : (j : Bytes) → g j ≡ (if k == j then some v else f j)) (fresh : f k ≡ none) where
  pub scan-put_above : at_least p k ≡ true → b ≡ insert_item (k, v) a
  scan-put_above h =
      IsOrdered-ext b (insert_item (k, v) a) ob
        (insert_item-IsOrdered k v a oa (ground (arith, fa k, fresh)))
        (λ j. ground (arith, fa j, gb j, put j, lookup-insert_item k j v a, bytes_beq_iff k j))

  pub scan-put_below : at_least p k ≡ false → b ≡ a
  scan-put_below h =
      IsOrdered-ext b a ob oa (λ j. ground (arith, fa j, gb j, put j, bytes_beq_iff k j))

insert_item-cases :
    (k v j w : Bytes) (l : List Item)
    → ((compare_bytes k j ≡ Ordering.gt)
        × (insert_item (k, v) ((j, w) ∷ l) ≡ (j, w) ∷ insert_item (k, v) l))
      ⊎ ((compare_bytes k j ≢ Ordering.gt)
          × (insert_item (k, v) ((j, w) ∷ l) ≡ (k, v) ∷ (j, w) ∷ l))
unfolding insert_item
insert_item-cases k v j w l = elim (Ordering-cases (compare_bytes k j)) [
  | inl lt ↦ inr (ground arith, ground arith)
  | inr (inl eq) ↦ inr (ground arith, ground arith)
  | inr (inr gt) ↦ inl (gt, ground arith)
]

insert_item-gt :
    (k v j w : Bytes) (l : List Item)
    → compare_bytes k j ≡ Ordering.gt
    → insert_item (k, v) ((j, w) ∷ l) ≡ (j, w) ∷ insert_item (k, v) l
unfolding insert_item
insert_item-gt k v j w l h = ground arith

insert_item-lt :
    (k v j w : Bytes) (l : List Item)
    → IsBelow k j
    → insert_item (k, v) ((j, w) ∷ l) ≡ (k, v) ∷ (j, w) ∷ l
unfolding insert_item
insert_item-lt k v j w l h = ground arith

pub collect-stop :
    (p k v : Bytes) (l : List Item) → is_chain_of p k ≡ false → collect p ((k, v) ∷ l) ≡ ok []
unfolding collect
collect-stop p k v l h = rw h

pub collect-step :
    (p k v : Bytes) (l : List Item) (h : Head) (chain : List Head)
    → is_chain_of p k ≡ true
    → decode_chain v ≡ ok h
    → collect p l ≡ ok chain
    → collect p ((k, v) ∷ l) ≡ ok (record h { create = uint64 (drop (length p) k) } ∷ chain)
unfolding collect
collect-step p k v l h chain own dec rest = rw (own, dec, rest)

collect_congr :
    (p k v : Bytes) (a b : List Item)
    → collect p a ≡ collect p b
    → collect p ((k, v) ∷ a) ≡ collect p ((k, v) ∷ b)
unfolding collect
collect_congr p k v a b h = rw h

collect-inv :
    (p k v : Bytes) (l : List Item) (chain : List Head)
    → is_chain_of p k ≡ true
    → collect p ((k, v) ∷ l) ≡ ok chain
    → (h : Head) × (rest : List Head) × (decode_chain v ≡ ok h)
      × (collect p l ≡ ok rest)
      × (chain ≡ record h { create = uint64 (drop (length p) k) } ∷ rest)
unfolding collect
collect-inv p k v l chain own e = elim (Result-cases (decode_chain v)) [
  | inl (h, hd) ↦ elim (Result-cases (collect p l)) [
    | inl (rest, hr) ↦ (h, rest, hd, hr, ground (arith, e))
    | inr (x, hr) ↦ absurd (ground (arith, e, hr, hd, own))
  ]
  | inr (x, hd) ↦ absurd (ground (arith, e, hd, own))
]

stranger :
    (p j k w : Bytes) (l : List Item)
    → has_prefix p k ≡ false
    → at_least p k ≡ true
    → compare_bytes k j ≢ Ordering.gt
    → is_chain_of p j ≡ false
stranger p j k w l n above ne = elim (Bool-cases (has_prefix p j)) [
  | inl mine ↦ absurd (ne (ground (arith, above_prefix p k j above n mine, compare_bytes-flip j k)))
  | inr other ↦ ground arith
]

-- A record of another chain does not show.
pub collect-other :
    (p k v : Bytes) (l : List Item)
    → has_prefix p k ≡ false
    → at_least p k ≡ true
    → All (λ x. at_least p x.0 ≡ true) l
    → collect p (insert_item (k, v) l) ≡ collect p l
collect-other p k v [] n above all = unfold insert_item collect in ground arith
collect-other p k v ((j, w) ∷ l) n above all = elim (insert_item-cases k v j w l) [
  | inl (gt, eq) ↦
      rw eq (collect_congr p j w (insert_item (k, v) l) l (collect-other p k v l n above all.1))
  | inr (ne, eq) ↦ rw eq (
      collect-stop p k v ((j, w) ∷ l) (ground arith)
      ∙ sym (collect-stop p j w l (stranger p j k w l n above ne)))
]

-- The newest record of the chain is found last.
pub collect-newest :
    (p k v : Bytes) (h : Head) (l : List Item) (chain : List Head)
    → is_chain_of p k ≡ true
    → decode_chain v ≡ ok h
    → All
        (λ x.
          (at_least p x.0 ≡ true)
          × (has_prefix p x.0 ≡ true → (is_chain_of p x.0 ≡ true) × IsBelow x.0 k))
        l
    → collect p l ≡ ok chain
    → collect p (insert_item (k, v) l)
      ≡ ok (chain ++ record h { create = uint64 (drop (length p) k) } ∷ [])
collect-newest p k v h [] chain own dec all e =
    let none_yet : chain ≡ [] = unfold collect in ground arith in
    rw none_yet (unfold insert_item in collect-step p k v [] h [] own dec (unfold collect in refl))
collect-newest p k v h ((j, w) ∷ l) chain own dec all e = elim (Bool-cases (has_prefix p j)) [
  | inl mine ↦
      let below : IsBelow j k = (all.0.1 mine).1 in
      let (older, rest, dec', rest_eq, chain_eq) = collect-inv p j w l chain (all.0.1 mine).0 e in
      rw (insert_item-gt k v j w l (ground (arith, compare_bytes-flip j k)), chain_eq)
        (collect-step p j w (insert_item (k, v) l) older
          (rest ++ record h { create = uint64 (drop (length p) k) } ∷ []) (all.0.1 mine).0 dec'
          (collect-newest p k v h l rest own dec all.1 rest_eq))
  | inr other ↦
      let below : IsBelow k j = above_prefix p j k all.0.0 other (ground arith) in
      let stop : collect p ((j, w) ∷ l) ≡ ok [] = collect-stop p j w l (ground arith) in
      let none_yet : chain ≡ [] = ground (arith, stop, e) in
      rw (insert_item-lt k v j w l below, none_yet)
        (collect-step p k v ((j, w) ∷ l) h [] own dec stop)
]
