-- ===== src/Value/Logic.antt =====
-- internal/value/compare.go: the comparison predicates and the three-valued connectives.
pub mod Laws
use mini_graph_db.Prelude.Options.{◌>>=◌}
use mini_graph_db.Prelude.{Ordering, Bool, true, false, not, ◌&&◌, ◌||◌, Option, none, some}
use mini_graph_db.Prelude.{if◌then◌else◌, nat_beq}
use mini_graph_db.Value.{
  Kind, kind_null, kind_bool, kind_int, kind_float, kind_string, kind_bytes, kind_date,
  kind_date_time, kind_duration, kind_list, kind_map, kind_node, kind_edge, kind_path,
}
use mini_graph_db.Value.{Scalar, null, bool, Value, scalar, kind, tag}
use mini_graph_db.Value.Compare.{compare_values}

-- The text of an operator; `unknown` is any other text.
pub data Operator : Type 0 where
  is_null : Operator
  is_not_null : Operator
  eq : Operator
  ne : Operator
  lt : Operator
  le : Operator
  gt : Operator
  ge : Operator
  unknown : Operator

unfoldable pub numeric : Kind → Bool
numeric kind_int = true
numeric kind_float = true
numeric _ = false

unfoldable pub comparable_kinds : Kind → Kind → Bool
comparable_kinds a b = nat_beq (tag a) (tag b) || (numeric a && numeric b)

unfoldable pub holds : Operator → Ordering → Bool
holds eq Ordering.eq = true
holds ne Ordering.lt = true
holds ne Ordering.gt = true
holds lt Ordering.lt = true
holds le Ordering.lt = true
holds le Ordering.eq = true
holds gt Ordering.gt = true
holds ge Ordering.gt = true
holds ge Ordering.eq = true
holds _ _ = false

abbrev pub is_nil : Value → Bool
is_nil v = nat_beq (tag (kind v)) (tag kind_null)

-- `ApplyOp` for the operators that read both sides.
unfoldable pub apply_comparison : Operator → Value → Value → Value
apply_comparison op left right =
    if is_nil left || is_nil right
    then scalar null
    else if comparable_kinds (kind left) (kind right)
    then scalar (bool (holds op (compare_values left right)))
    else scalar null

-- `ApplyOp`; `none` is its error.
unfoldable pub apply_op : Operator → Value → Value → Option Value
apply_op unknown left right = none
apply_op is_null left right = some (scalar (bool (is_nil left)))
apply_op is_not_null left right = some (scalar (bool (not (is_nil left))))
apply_op op left right = some (apply_comparison op left right)

-- `Not`; `none` is its error.
unfoldable pub negate : Value → Option Value
negate (scalar null) = some (scalar null)
negate (scalar (bool b)) = some (scalar (bool (not b)))
negate _ = none

-- `expectLogic`, with the value it lets through: `none` is null.
unfoldable pub expect_logic : Value → Option (Option Bool)
expect_logic (scalar null) = some none
expect_logic (scalar (bool b)) = some (some b)
expect_logic _ = none

unfoldable pub is_logic : Bool → Option Bool → Bool
is_logic b none = false
is_logic true (some a) = a
is_logic false (some a) = not a

unfoldable pub null_logic : Option Bool → Bool
null_logic none = true
null_logic (some a) = false

-- `And`; `none` is its error.
unfoldable pub both : Value → Value → Option Value
both a b = do
  x ← expect_logic a
  y ← expect_logic b
  if is_logic false x || is_logic false y
      then some (scalar (bool false))
      else if null_logic x || null_logic y
      then some (scalar null)
      else some (scalar (bool true))

-- `Or`; `none` is its error.
unfoldable pub either : Value → Value → Option Value
either a b = do
  x ← expect_logic a
  y ← expect_logic b
  if is_logic true x || is_logic true y
      then some (scalar (bool true))
      else if null_logic x || null_logic y
      then some (scalar null)
      else some (scalar (bool false))
