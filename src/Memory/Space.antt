-- ===== src/Memory/Space.antt =====
-- `space` of memory/engine.go: one keyspace, as a sorted key slice beside a value map.
-- `sort.Search` gives the least index at which its test holds, and the length where none does.
pub mod Keys
pub mod Laws
use mini_graph_db.Prelude.{
  ℕ, zero, suc, ◌+◌, Bool, true, false, Option, none, some, List, [], ◌∷◌, ◌++◌, Ordering,
  if◌then◌else◌, length, get_elem?, take, drop, ltb, ◌&&◌,
}
use mini_graph_db.Prelude.Bytes.{Bytes, compare_bytes, bytes_beq, bytes_eq}
use mini_graph_db.Prelude.Assoc.{Assoc, insert, remove}

pub record Space : Type 0 where
  pub keys : List Bytes
  pub vals : Assoc Bytes Bytes

abbrev pub empty : Space
empty = record { keys = []; vals = [] }

-- `sort.Search(len(keys), func(i int) bool { return test(keys[i]) })`.
unfoldable pub search_by : (Bytes → Bool) → List Bytes → ℕ
search_by test [] = 0
search_by test (k ∷ ks) = if test k then 0 else suc (search_by test ks)

-- `bytes.Compare(k, target) >= 0` and `> 0`.
abbrev pub at_least : Bytes → Bytes → Bool
at_least target k = elim (compare_bytes k target) [ Ordering.lt ↦ false | _ ↦ true ]

abbrev pub above : Bytes → Bytes → Bool
above target k = elim (compare_bytes k target) [ Ordering.gt ↦ true | _ ↦ false ]

-- `i < len(keys) && bytes.Equal(keys[i], kb)`.
unfoldable pub stands_at : ℕ → Bytes → List Bytes → Bool
stands_at i key keys = elim (get_elem? keys i) [ none ↦ false | some k ↦ bytes_beq k key ]

-- `keys = append(keys, nil); copy(keys[i+1:], keys[i:]); keys[i] = key`.
unfoldable pub insert_at : ℕ → Bytes → List Bytes → List Bytes
insert_at i key keys = take i keys ++ (key ∷ drop i keys)

-- `append(keys[:i], keys[i+1:]...)`.
unfoldable pub delete_at : ℕ → List Bytes → List Bytes
delete_at i keys = take i keys ++ drop (suc i) keys

unfoldable pub put : Space → Bytes → Bytes → Space
put s key val =
    let i = search_by (at_least key) s.keys in
    if stands_at i key s.keys
    then record s { vals = insert key val s.vals }
    else record { keys = insert_at i key s.keys; vals = insert key val s.vals }

unfoldable pub del : Space → Bytes → Space
del s key =
    let i = search_by (at_least key) s.keys in
    if stands_at i key s.keys
    then record { keys = delete_at i s.keys; vals = remove key s.vals }
    else s
