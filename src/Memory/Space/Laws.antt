-- ===== src/Memory/Space/Laws.antt =====
-- `space` is a sorted finite map: the slice and the map hold the same keys, `put` and `del` keep it
-- so, and they act on it as the abstract map operations do.
use mini_graph_db.Prelude.{
  Bool, true, false, Option, none, some, ◌≡◌, refl, arith, if◌then◌else◌, Bool-cases, inl, inr,
  ◌==◌,
}
use mini_graph_db.Prelude.Bytes.{Bytes, bytes_beq_iff, bytes_eq}
use mini_graph_db.Prelude.Assoc.{lookup, lookup-insert, lookup-remove}
use mini_graph_db.Memory.Space.{Space, empty, put, del, search_by, at_least, stands_at}
use mini_graph_db.Memory.Space.Keys.{
  IsSorted, has, stands_at-search, has-insert_at, insert_at-IsSorted, has-delete_at,
  delete_at-IsSorted,
}

-- What the space holds under a key.
abbrev pub value_at : Space → Bytes → Option Bytes
value_at s k = lookup k s.vals

abbrev pub is_some {ℓ} : {A : Type ℓ} → Option A → Bool
is_some none = false
is_some (some _) = true

pub record IsValid (s : Space) : Type 0 where
  pub sorted : IsSorted s.keys
  pub agrees : (k : Bytes) → has k s.keys ≡ is_some (value_at s k)

pub empty-IsValid : IsValid empty
unfolding lookup
empty-IsValid = record { sorted = tt; agrees = λ k. refl }

pub value_at-put :
    (s : Space) (key k val : Bytes)
    → value_at (put s key val) k ≡ (if key == k then some val else value_at s k)
unfolding put
value_at-put s key k val = ground (arith, lookup-insert key k val s.vals)

pub value_at-del :
    (s : Space) (key k : Bytes)
    → IsValid s
    → value_at (del s key) k ≡ (if key == k then none else value_at s k)
unfolding del
value_at-del s key k v = ground (
  arith,
  lookup-remove key k s.vals,
  stands_at-search key s.keys v.sorted,
  v.agrees key,
  bytes_beq_iff key k,
)

pub put-IsValid : (s : Space) (key val : Bytes) → IsValid s → IsValid (put s key val)
unfolding put
put-IsValid s key val v =
    elim (Bool-cases (stands_at (search_by (at_least key) s.keys) key s.keys)) [
      | inl old ↦ rw old (record {
        sorted = v.sorted;
        agrees = λ k. ground (
          arith,
          lookup-insert key k val s.vals,
          v.agrees k,
          stands_at-search key s.keys v.sorted,
          bytes_beq_iff key k,
        );
      })
      | inr new ↦ rw new (record {
        sorted =
            insert_at-IsSorted key s.keys v.sorted
              (ground (arith, stands_at-search key s.keys v.sorted));
        agrees = λ k.
            ground (arith, lookup-insert key k val s.vals, v.agrees k, has-insert_at key k s.keys);
      })
    ]

pub del-IsValid : (s : Space) (key : Bytes) → IsValid s → IsValid (del s key)
unfolding del
del-IsValid s key v = elim (Bool-cases (stands_at (search_by (at_least key) s.keys) key s.keys)) [
  | inl old ↦ rw old (record {
    sorted = delete_at-IsSorted _ s.keys v.sorted;
    agrees = λ k. ground (
      arith,
      lookup-remove key k s.vals,
      v.agrees k,
      has-delete_at key k s.keys v.sorted (ground (arith, stands_at-search key s.keys v.sorted)),
    );
  })
  | inr new ↦ rw new v
]
