-- ===== src/Memory/Snapshot/Items.antt =====
-- Ordered item lists: the sort and the merge of `materialize`.
use mini_graph_db.Prelude.{
  Option, none, some, List, [], ◌∷◌, ◌≡◌, refl, arith, if◌then◌else◌, All, Ordering, ◌==◌, ◌⊎◌, inl,
  inr, Ordering-cases, ◌∙◌,
}
use mini_graph_db.Prelude.Bytes.{
  Bytes, bytes_eq, bytes_beq_iff, compare_bytes, compare_bytes_refl, compare_bytes-eq,
  compare_bytes-flip, compare_bytes_trans,
}
use mini_graph_db.Prelude.Assoc.{lookup, Distinct}
use mini_graph_db.Memory.Space.Keys.{IsBelow}
use mini_graph_db.Memory.Snapshot.{Item, insert_item, sort_items, merge_items}

abbrev pub AllAbove : Bytes → List Item → Type 0
AllAbove k l = All (λ p. IsBelow k p.0) l

-- Strictly ascending keys.
abbrev pub IsOrdered : List Item → Type 0
IsOrdered [] = Unit {0}
IsOrdered ((k, v) ∷ l) = AllAbove k l × IsOrdered l

abbrev pub or_else {ℓ} : {A : Type ℓ} → Option A → Option A → Option A
or_else none o = o
or_else (some a) o = some a

-- No key stands in both.
abbrev pub Apart : List Item → List Item → Type 0
Apart a b = (j : Bytes) → (lookup j a ≡ none) ⊎ (lookup j b ≡ none)

pub AllAbove-trans : (a b : Bytes) (l : List Item) → IsBelow a b → AllAbove b l → AllAbove a l
AllAbove-trans a b [] h all = tt
AllAbove-trans a b ((k, v) ∷ l) h all =
    (compare_bytes_trans a b k h all.0, AllAbove-trans a b l h all.1)

AllAbove-insert :
    (a k v : Bytes) (l : List Item) → IsBelow a k → AllAbove a l → AllAbove a (insert_item (k, v) l)
unfolding insert_item
AllAbove-insert a k v [] h all = (h, tt)
AllAbove-insert a k v ((j, w) ∷ l) h all = ground (arith, AllAbove-insert a k v l h all.1)

pub lookup-insert_item :
    (k j v : Bytes) (l : List Item)
    → lookup j (insert_item (k, v) l) ≡ (if k == j then some v else lookup j l)
unfolding insert_item lookup
lookup-insert_item k j v [] = ground arith
lookup-insert_item k j v ((i, w) ∷ l) =
    ground (
      arith,
      lookup-insert_item k j v l,
      bytes_beq_iff k j,
      bytes_beq_iff i j,
      compare_bytes_refl k,
    )

insert_item-below :
    (k v j w : Bytes) (l : List Item)
    → IsBelow k j
    → insert_item (k, v) ((j, w) ∷ l) ≡ (k, v) ∷ (j, w) ∷ l
unfolding insert_item
insert_item-below k v j w l h = ground arith

insert_item-above :
    (k v j w : Bytes) (l : List Item)
    → compare_bytes k j ≡ Ordering.gt
    → insert_item (k, v) ((j, w) ∷ l) ≡ (j, w) ∷ insert_item (k, v) l
unfolding insert_item
insert_item-above k v j w l h = ground arith

pub IsBelow-of_gt : (k j : Bytes) → compare_bytes k j ≡ Ordering.gt → IsBelow j k
IsBelow-of_gt k j h = ground (arith, compare_bytes-flip k j)

pub insert_item-IsOrdered :
    (k v : Bytes) (l : List Item)
    → IsOrdered l
    → lookup k l ≡ none
    → IsOrdered (insert_item (k, v) l)
insert_item-IsOrdered k v [] o h = unfold insert_item in (tt, tt)
insert_item-IsOrdered k v ((j, w) ∷ l) o h = elim (Ordering-cases (compare_bytes k j)) [
  | inl lt ↦ rw (insert_item-below k v j w l lt) ((lt, AllAbove-trans k j l lt o.0), o)
  | inr (inl eq) ↦
      absurd (unfold lookup in ground (arith, compare_bytes-eq k j eq, bytes_beq_iff j k))
  | inr (inr gt) ↦ rw (insert_item-above k v j w l gt) (
    AllAbove-insert j k v l (IsBelow-of_gt k j gt) o.0,
    insert_item-IsOrdered k v l o.1 (unfold lookup in ground arith),
  )
]

pub lookup-sort_items : (j : Bytes) (l : List Item) → lookup j (sort_items l) ≡ lookup j l
unfolding sort_items lookup
lookup-sort_items j [] = refl
lookup-sort_items j ((k, v) ∷ l) =
    ground (arith, lookup-insert_item k j v (sort_items l), lookup-sort_items j l)

pub sort_items-IsOrdered : (l : List Item) → Distinct l → IsOrdered (sort_items l)
unfolding sort_items
sort_items-IsOrdered [] d = tt
sort_items-IsOrdered ((k, v) ∷ l) d =
    insert_item-IsOrdered k v (sort_items l) (sort_items-IsOrdered l d.1)
      (lookup-sort_items k l ∙ d.0)

AllAbove-merge :
    (k : Bytes) (a b : List Item) → AllAbove k a → AllAbove k b → AllAbove k (merge_items a b)
unfolding merge_items
AllAbove-merge k [] b ha hb = hb
AllAbove-merge k (x ∷ a) [] ha hb = ha
AllAbove-merge k ((i, v) ∷ a) ((j, w) ∷ b) ha hb =
    ground (arith, AllAbove-merge k a ((j, w) ∷ b) ha.1 hb, AllAbove-merge k ((i, v) ∷ a) b ha hb.1)

Apart-left : (x : Item) (a b : List Item) → Apart (x ∷ a) b → Apart a b
unfolding lookup
Apart-left (k, v) a b apart j = elim (apart j) [ inl e ↦ inl (ground arith) | inr e ↦ inr e ]

Apart-right : (x : Item) (a b : List Item) → Apart a (x ∷ b) → Apart a b
unfolding lookup
Apart-right (k, v) a b apart j = elim (apart j) [ inl e ↦ inl e | inr e ↦ inr (ground arith) ]

-- The merge of two lists with no key in common holds what either holds.
pub lookup-merge_items :
    (j : Bytes) (a b : List Item)
    → Apart a b
    → lookup j (merge_items a b) ≡ or_else (lookup j a) (lookup j b)
unfolding merge_items lookup
lookup-merge_items j [] b apart = refl
lookup-merge_items j ((i, v) ∷ a) [] apart = ground arith
lookup-merge_items j ((i, v) ∷ a) ((k, w) ∷ b) apart = ground (
  arith,
  lookup-merge_items j a ((k, w) ∷ b) (Apart-left (i, v) a ((k, w) ∷ b) apart),
  lookup-merge_items j ((i, v) ∷ a) b (Apart-right (k, w) ((i, v) ∷ a) b apart),
  apart j,
)

merge_items-below :
    (i v k w : Bytes) (a b : List Item)
    → IsBelow i k
    → merge_items ((i, v) ∷ a) ((k, w) ∷ b) ≡ (i, v) ∷ merge_items a ((k, w) ∷ b)
unfolding merge_items
merge_items-below i v k w a b h = ground arith

merge_items-above :
    (i v k w : Bytes) (a b : List Item)
    → compare_bytes i k ≡ Ordering.gt
    → merge_items ((i, v) ∷ a) ((k, w) ∷ b) ≡ (k, w) ∷ merge_items ((i, v) ∷ a) b
unfolding merge_items
merge_items-above i v k w a b h = ground arith

pub merge_items-IsOrdered :
    (a b : List Item) → IsOrdered a → IsOrdered b → Apart a b → IsOrdered (merge_items a b)
merge_items-IsOrdered [] b oa ob apart = unfold merge_items in ob
merge_items-IsOrdered ((i, v) ∷ a) [] oa ob apart = unfold merge_items in oa
merge_items-IsOrdered ((i, v) ∷ a) ((k, w) ∷ b) oa ob apart =
    elim (Ordering-cases (compare_bytes i k)) [
      | inl lt ↦ rw (merge_items-below i v k w a b lt) (
        AllAbove-merge i a ((k, w) ∷ b) oa.0 (lt, AllAbove-trans i k b lt ob.0),
        merge_items-IsOrdered a ((k, w) ∷ b) oa.1 ob (Apart-left (i, v) a ((k, w) ∷ b) apart),
      )
      | inr (inl eq) ↦ absurd (
          unfold lookup in
          ground (arith, apart i, compare_bytes-eq i k eq, bytes_beq_iff i i, bytes_beq_iff k i))
      | inr (inr gt) ↦ rw (merge_items-above i v k w a b gt) (
        AllAbove-merge k ((i, v) ∷ a) b
            (IsBelow-of_gt i k gt, AllAbove-trans k i a (IsBelow-of_gt i k gt) oa.0) ob.0,
        merge_items-IsOrdered ((i, v) ∷ a) b oa ob.1 (Apart-right (k, w) ((i, v) ∷ a) b apart),
      )
    ]
