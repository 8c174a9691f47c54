-- ===== src/Value/Compare.antt =====
-- internal/value/compare.go: the total order of the values.
pub mod Scalars
pub mod Total
use mini_graph_db.Prelude.{ℕ, compare, Ordering, Bool, true, false, Option, none, some}
use mini_graph_db.Prelude.{List, [], ◌∷◌}
use mini_graph_db.Prelude.Bytes.{compare_bytes, flip}
use mini_graph_db.Prelude.Int.{ℤ, compare_int}
use mini_graph_db.Value.{
  Kind, kind_null, kind_bool, kind_int, kind_float, kind_string, kind_bytes, kind_date,
  kind_date_time, kind_duration, kind_list, kind_map, kind_node, kind_edge, kind_path,
}
use mini_graph_db.Value.{Scalar, Value, scalar, list, map, Values, nil, cons, Entries, end, entry}
use mini_graph_db.Value.{scalar_kind, kind, bool_of, i_of, day_of, nsec_of, zone_of, float_of}
use mini_graph_db.Value.{string_of, raw_of, id_of, nodes_of, edges_of}
use mini_graph_db.Value.Number.{compare_float, compare_int_float}

abbrev pub kind_rank : Kind → ℕ
kind_rank kind_null = 0
kind_rank kind_bool = 1
kind_rank kind_int = 2
kind_rank kind_float = 2
kind_rank kind_string = 3
kind_rank kind_bytes = 4
kind_rank kind_date = 5
kind_rank kind_date_time = 6
kind_rank kind_duration = 7
kind_rank kind_list = 8
kind_rank kind_map = 9
kind_rank kind_node = 10
kind_rank kind_edge = 11
kind_rank kind_path = 12

-- `if c := …; c != 0 { return c }` before the rest.
abbrev pub and_then : Ordering → Ordering → Ordering
and_then Ordering.lt rest = Ordering.lt
and_then Ordering.eq rest = rest
and_then Ordering.gt rest = Ordering.gt

abbrev pub compare_bool : Bool → Bool → Ordering
compare_bool false false = Ordering.eq
compare_bool false true = Ordering.lt
compare_bool true false = Ordering.gt
compare_bool true true = Ordering.eq

-- `compareNumber`.
unfoldable pub compare_number : Scalar → Scalar → Ordering
compare_number a b = elim (scalar_kind a) [
  | kind_int ↦ elim (scalar_kind b) [
    | kind_int ↦ compare_int (i_of a) (i_of b)
    | _ ↦ compare_int_float (i_of a) (float_of b)
  ]
  | _ ↦ elim (scalar_kind b) [
    | kind_int ↦ flip (compare_int_float (i_of b) (float_of a))
    | _ ↦ compare_float (float_of a) (float_of b)
  ]
]

-- No recorded offset sorts before any recorded one.
abbrev pub compare_zone : Option ℤ → Option ℤ → Ordering
compare_zone none none = Ordering.eq
compare_zone none (some b) = Ordering.lt
compare_zone (some a) none = Ordering.gt
compare_zone (some a) (some b) = compare_int a b

-- The loop of `comparePaths`: a node, then the edge behind it, while both have a node.
unfoldable pub compare_paths : (an ae bn be : List ℕ) → Ordering
compare_paths [] ae [] be = Ordering.eq
compare_paths [] ae (y ∷ bn) be = Ordering.lt
compare_paths (x ∷ an) ae [] be = Ordering.gt
compare_paths (x ∷ an) [] (y ∷ bn) [] = and_then (compare x y) (compare_paths an [] bn [])
compare_paths (x ∷ an) [] (y ∷ bn) (f ∷ be) = and_then (compare x y) Ordering.lt
compare_paths (x ∷ an) (e ∷ ae) (y ∷ bn) [] = and_then (compare x y) Ordering.gt
compare_paths (x ∷ an) (e ∷ ae) (y ∷ bn) (f ∷ be) =
    and_then (compare x y) (and_then (compare e f) (compare_paths an ae bn be))

-- The switch of `Compare` on the kind of its first argument, once the ranks are equal.
unfoldable pub compare_kind : Kind → Scalar → Scalar → Ordering
compare_kind kind_null a b = Ordering.eq
compare_kind kind_bool a b = compare_bool (bool_of a) (bool_of b)
compare_kind kind_int a b = compare_number a b
compare_kind kind_float a b = compare_number a b
compare_kind kind_string a b = compare_bytes (string_of a) (string_of b)
compare_kind kind_bytes a b = compare_bytes (raw_of a) (raw_of b)
compare_kind kind_date a b = compare_int (i_of a) (i_of b)
compare_kind kind_date_time a b =
    and_then (compare_int (i_of a) (i_of b)) (compare_zone (zone_of a) (zone_of b))
compare_kind kind_duration a b =
    and_then (compare_int (i_of a) (i_of b))
      (and_then (compare_int (day_of a) (day_of b)) (compare_int (nsec_of a) (nsec_of b)))
compare_kind kind_list a b = Ordering.eq
compare_kind kind_map a b = Ordering.eq
compare_kind kind_node a b = compare (id_of a) (id_of b)
compare_kind kind_edge a b = compare (id_of a) (id_of b)
compare_kind kind_path a b = compare_paths (nodes_of a) (edges_of a) (nodes_of b) (edges_of b)

abbrev pub rank : Value → ℕ
rank v = kind_rank (kind v)

-- `Compare`, `compareLists` and `compareMaps`. The rank of a list and that of a map are their own, so
-- that it alone decides in the last clause.
unfoldable mutual
  pub compare_values : Value → Value → Ordering
  compare_values (scalar a) (scalar b) =
      and_then (compare (kind_rank (scalar_kind a)) (kind_rank (scalar_kind b)))
        (compare_kind (scalar_kind a) a b)
  compare_values (list xs) (list ys) = compare_lists xs ys
  compare_values (map xs) (map ys) = compare_maps xs ys
  compare_values a b = compare (rank a) (rank b)

  pub compare_lists : Values → Values → Ordering
  compare_lists nil nil = Ordering.eq
  compare_lists nil (cons y ys) = Ordering.lt
  compare_lists (cons x xs) nil = Ordering.gt
  compare_lists (cons x xs) (cons y ys) = and_then (compare_values x y) (compare_lists xs ys)

  pub compare_maps : Entries → Entries → Ordering
  compare_maps end end = Ordering.eq
  compare_maps end (entry k w ys) = Ordering.lt
  compare_maps (entry j v xs) end = Ordering.gt
  compare_maps (entry j v xs) (entry k w ys) =
      and_then (compare_bytes j k) (and_then (compare_values v w) (compare_maps xs ys))
