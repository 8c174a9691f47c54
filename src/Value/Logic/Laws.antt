-- ===== src/Value/Logic/Laws.antt =====
-- internal/value/compare.go: what the predicates and the connectives promise to a query.
use mini_graph_db.Prelude.{
  ◌≡◌, refl, Ordering, Bool, true, false, not, none, some, arith, ◌⊎◌, Bool-cases, ◌||◌, ap, ◌≢◌,
  inl, inr,
}
use mini_graph_db.Prelude.Bytes.{flip}
use mini_graph_db.Prelude.Options.{◌>>=◌}
use mini_graph_db.Value.{Kind, null, bool, Value, scalar, kind}
use mini_graph_db.Value.Compare.{compare_values}
use mini_graph_db.Value.Compare.Total.{HasInts, compare_values-flip}
use mini_graph_db.Value.Logic.{
  Operator, is_null, is_not_null, eq, ne, lt, le, gt, ge, unknown, apply_op, holds, negate, both,
  either, apply_comparison, is_nil, comparable_kinds, expect_logic, is_logic, null_logic,
}

-- A value is null, a truth value, or no operand of a connective.
logic-cases :
    (v : Value)
    → (v ≡ scalar null)
      ⊎ ((b : Bool) × (v ≡ scalar (bool b)))
      ⊎ ((expect_logic v ≡ none) × (negate v ≡ none))
unfolding expect_logic negate
logic-cases (scalar null) = inl refl
logic-cases (scalar (bool b)) = inr (inl (b, refl))
logic-cases _ = inr (inr (refl, refl))

negate-both_bool :
    (x y : Bool)
    → (do c ← both (scalar (bool x)) (scalar (bool y)); negate c)
      ≡ either (scalar (bool (not x))) (scalar (bool (not y)))
unfolding both either negate expect_logic is_logic null_logic
negate-both_bool true true = refl
negate-both_bool true false = refl
negate-both_bool false true = refl
negate-both_bool false false = refl

negate-both_null :
    (x : Bool)
    → ((do c ← both (scalar (bool x)) (scalar null); negate c)
        ≡ either (scalar (bool (not x))) (scalar null))
      × ((do c ← both (scalar null) (scalar (bool x)); negate c)
          ≡ either (scalar null) (scalar (bool (not x))))
unfolding both either negate expect_logic is_logic null_logic
negate-both_null true = (refl, refl)
negate-both_null false = (refl, refl)

-- NOT (a AND b) is (NOT a) OR (NOT b), null and operands that are no truth values included.
pub negate-both :
    (a b : Value) → (do c ← both a b; negate c) ≡ (do x ← negate a; y ← negate b; either x y)
unfolding both either negate expect_logic is_logic null_logic
negate-both a b = elim (logic-cases a) [
  | inl a_null ↦ elim (logic-cases b) [
    | inl b_null ↦ rw (a_null, b_null) refl
    | inr (inl (y, b_bool)) ↦ rw (a_null, b_bool) (negate-both_null y).1
    | inr (inr (b_none, b_error)) ↦ rw (a_null, b_none, b_error) refl
  ]
  | inr (inl (x, a_bool)) ↦ elim (logic-cases b) [
    | inl b_null ↦ rw (a_bool, b_null) (negate-both_null x).0
    | inr (inl (y, b_bool)) ↦ rw (a_bool, b_bool) (negate-both_bool x y)
    | inr (inr (b_none, b_error)) ↦ rw (a_bool, b_none, b_error) refl
  ]
  | inr (inr (a_none, a_error)) ↦ rw (a_none, a_error) refl
]

-- The operator that holds where `op` does not.
abbrev pub opposite : Operator → Operator
opposite eq = ne
opposite ne = eq
opposite lt = ge
opposite ge = lt
opposite le = gt
opposite gt = le
opposite is_null = is_not_null
opposite is_not_null = is_null
opposite unknown = unknown

-- A comparison whose negation is another, by the results of `Compare` for which each holds.
negate-apply_comparison :
    (op other : Operator) (a b : Value)
    → ((c : Ordering) → not (holds op c) ≡ holds other c)
    → negate (apply_comparison op a b) ≡ some (apply_comparison other a b)
unfolding apply_comparison negate
negate-apply_comparison op other a b h = elim (Bool-cases (is_nil a || is_nil b)) [
  | inl some_null ↦ rw some_null refl
  | inr no_null ↦ rw no_null (elim (Bool-cases (comparable_kinds (kind a) (kind b))) [
    | inl same ↦ rw same (rw (h (compare_values a b)) refl)
    | inr apart ↦ rw apart refl
  ])
]

-- NOT of a predicate is the opposite predicate: null stays null, an unknown operator stays an error.
pub negate-apply_op :
    (op : Operator) (a b : Value) → (do c ← apply_op op a b; negate c) ≡ apply_op (opposite op) a b
unfolding apply_op negate holds
negate-apply_op unknown a b = refl
negate-apply_op is_null a b = refl
negate-apply_op is_not_null a b = ap (λ x. some (scalar (bool x))) (ground (arith))
negate-apply_op eq a b = negate-apply_comparison eq ne a b (λ c. ground arith)
negate-apply_op ne a b = negate-apply_comparison ne eq a b (λ c. ground arith)
negate-apply_op lt a b = negate-apply_comparison lt ge a b (λ c. ground arith)
negate-apply_op ge a b = negate-apply_comparison ge lt a b (λ c. ground arith)
negate-apply_op le a b = negate-apply_comparison le gt a b (λ c. ground arith)
negate-apply_op gt a b = negate-apply_comparison gt le a b (λ c. ground arith)

-- The operator with the sides exchanged.
abbrev pub converse : Operator → Operator
converse lt = gt
converse gt = lt
converse le = ge
converse ge = le
converse op = op

either_swap : (x y : Bool) → (x || y) ≡ (y || x)
either_swap x y = ground arith

comparable_kinds-swap : (j k : Kind) → comparable_kinds j k ≡ comparable_kinds k j
unfolding comparable_kinds
comparable_kinds-swap j k = ground arith

apply_comparison-converse :
    (op other : Operator) (a b : Value)
    → HasInts a
    → HasInts b
    → ((c : Ordering) → holds other (flip c) ≡ holds op c)
    → apply_comparison other b a ≡ apply_comparison op a b
unfolding apply_comparison
apply_comparison-converse op other a b ha hb h =
    rw
      (
        either_swap (is_nil b) (is_nil a),
        comparable_kinds-swap (kind b) (kind a),
        (compare_values-flip a b ha hb).0,
        h (compare_values a b),
      )
      refl

-- A comparison may be read from either side; null and incomparable kinds give null both ways.
pub apply_op-converse :
    (op : Operator) (a b : Value)
    → HasInts a
    → HasInts b
    → op ≢ is_null
    → op ≢ is_not_null
    → apply_op (converse op) b a ≡ apply_op op a b
unfolding apply_op holds
apply_op-converse unknown a b ha hb not_null not_not_null = refl
apply_op-converse is_null a b ha hb not_null not_not_null = absurd (not_null refl)
apply_op-converse is_not_null a b ha hb not_null not_not_null = absurd (not_not_null refl)
apply_op-converse eq a b ha hb not_null not_not_null =
    ap some (apply_comparison-converse eq eq a b ha hb (λ c. ground arith))
apply_op-converse ne a b ha hb not_null not_not_null =
    ap some (apply_comparison-converse ne ne a b ha hb (λ c. ground arith))
apply_op-converse lt a b ha hb not_null not_not_null =
    ap some (apply_comparison-converse lt gt a b ha hb (λ c. ground arith))
apply_op-converse ge a b ha hb not_null not_not_null =
    ap some (apply_comparison-converse ge le a b ha hb (λ c. ground arith))
apply_op-converse le a b ha hb not_null not_not_null =
    ap some (apply_comparison-converse le ge a b ha hb (λ c. ground arith))
apply_op-converse gt a b ha hb not_null not_not_null =
    ap some (apply_comparison-converse gt lt a b ha hb (λ c. ground arith))
