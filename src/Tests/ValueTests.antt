-- ===== src/Tests/ValueTests.antt =====
-- Values: comparisons, predicates and records at concrete values.
use mini_graph_db.Prelude.{ℕ, ◌+◌, ◌^◌, ◌*◌, Ordering, [], ◌∷◌, ◌≡◌, ◌≢◌, refl, true, arith, some}
use mini_graph_db.Prelude.Bytes.{flip}
use mini_graph_db.Prelude.Options.{◌>>=◌}
use mini_graph_db.Prelude.Int.{ℤ, pos, negsuc, inc, dec, scale}
use mini_graph_db.Value.{
  Value, scalar, list, map, nil, cons, end, entry, null, bool, int, float, path, path_of,
}
use mini_graph_db.Value.Number.{
  number, magnitude, one, two63, fin, compare_numbers, compare_int_float, compare_int_finite, trunc,
  of_int, round, round_from,
}
use mini_graph_db.Value.Number.Exact.{IsInt64, compare_int_float-exact}
use mini_graph_db.Value.Compare.{compare_values}
use mini_graph_db.Value.Compare.Total.{HasInts, compare_values-flip, compare_values-Chain}
use mini_graph_db.Value.Chain.{Chain}
use mini_graph_db.Value.Logic.{le, lt, ge, both, either, negate, apply_op}
use mini_graph_db.Value.Logic.Laws.{negate-both, negate-apply_op, apply_op-converse}
use mini_graph_db.Value.Civil.{
  date, date_of, next_date, valid_date, days_in_month, is_leap, days_from_civil, floor_div, minus,
  civil_from_days,
}
use mini_graph_db.Value.Civil.Days.{date-next_date}
use mini_graph_db.Value.Civil.RoundTrip.{civil_from_days-date}
use mini_graph_db.Value.Record.{decode_record, encode_record, done, fail, out_of_fuel}
use mini_graph_db.Value.Record.Total.{decode_record-total}
use mini_graph_db.Value.Record.RoundTrip.{Fits, decode_record-encode_record}

-- The last day of February 2024, and the epoch.
date-next_date_example :
    (n : ℤ) × (date (pos 2024) 2 29 ≡ some n) × (date_of (next_date (pos 2024) 2 29) ≡ some (inc n))
unfolding valid_date days_in_month is_leap next_date
date-next_date_example = date-next_date (pos 2024) 2 29 refl refl

civil_from_days-date_example :
    (n : ℤ) × (date (negsuc 3) 2 29 ≡ some n) × (civil_from_days n ≡ (negsuc 3, 2, 29))
unfolding valid_date days_in_month is_leap
civil_from_days-date_example = civil_from_days-date (negsuc 3) 2 29 refl

epoch : date (pos 1970) 1 1 ≡ some (pos 0)
unfolding date days_from_civil valid_date days_in_month floor_div minus dec
epoch = refl

-- 2 ^ 53 + 1 and the float 2 ^ 53, to which it would round.
abbrev big : Value
big = scalar (int (pos (2 ^ 53 + 1)))

abbrev big_float : ℕ
big_float = (1023 + 53) * 2 ^ 52

big-IsInt64 : IsInt64 (pos (2 ^ 53 + 1))
unfolding two63
big-IsInt64 = omega arith

compare_int_float-exact_example :
    compare_int_float (pos (2 ^ 53 + 1)) big_float
    ≡ compare_numbers (fin (scale one (pos (2 ^ 53 + 1)))) (number big_float)
compare_int_float-exact_example = compare_int_float-exact (pos (2 ^ 53 + 1)) big_float big-IsInt64

above_float : compare_int_float (pos (2 ^ 53 + 1)) big_float ≡ Ordering.gt
unfolding compare_int_float compare_int_finite number magnitude one two63 trunc of_int round
    round_from
above_float = refl

abbrev half : Value
half = scalar (float (1022 * 2 ^ 52))

-- A list of an int and a map, and one that differs in the map's value alone.
abbrev nested : Value → Value
nested v = list (cons big (cons (map (entry (107 ∷ []) v end)) nil))

nested-HasInts : HasInts (nested half) × HasInts (nested big)
unfolding two63
nested-HasInts = ((omega arith, ((tt, tt), tt)), (omega arith, ((omega arith, tt), tt)))

compare_values-flip_example :
    (compare_values (nested big) (nested half) ≡ flip (compare_values (nested half) (nested big)))
    × (compare_values (nested half) (nested half) ≡ Ordering.eq)
compare_values-flip_example =
    compare_values-flip (nested half) (nested big) nested-HasInts.0 nested-HasInts.1

compare_values-Chain_example :
    Chain
      (compare_values (nested half) (nested big))
      (compare_values (nested big) (nested half))
      (compare_values (nested half) (nested half))
compare_values-Chain_example =
    compare_values-Chain (nested half) (nested big) (nested half) nested-HasInts.0 nested-HasInts.1
      nested-HasInts.0

negate-both_example :
    (do c ← both (scalar (bool true)) (scalar null); negate c)
    ≡ (do x ← negate (scalar (bool true)); y ← negate (scalar null); either x y)
negate-both_example = negate-both (scalar (bool true)) (scalar null)

negate-apply_op_example : (do c ← apply_op lt big half; negate c) ≡ apply_op ge big half
negate-apply_op_example = negate-apply_op lt big half

apply_op-converse_example : apply_op ge half big ≡ apply_op le big half
apply_op-converse_example = apply_op-converse le big half big-IsInt64 tt (λ h. cc) (λ h. cc)

nested-Fits : Fits (nested (scalar (path (1 ∷ 2 ∷ []) (7 ∷ []))))
unfolding two63 path_of
nested-Fits = (
  omega arith,
  (
    omega arith,
    (
      (
        omega arith,
        (tt, tt),
        (
          omega arith,
          ((omega arith, (omega arith, tt)), (omega arith, tt), omega arith, omega arith, refl),
          tt,
        ),
      ),
      tt,
    ),
  ),
)

decode_record-encode_record_example :
    decode_record (encode_record (nested (scalar (path (1 ∷ 2 ∷ []) (7 ∷ [])))))
    ≡ done (nested (scalar (path (1 ∷ 2 ∷ []) (7 ∷ []))))
decode_record-encode_record_example =
    decode_record-encode_record (nested (scalar (path (1 ∷ 2 ∷ []) (7 ∷ [])))) nested-Fits

-- A list that claims 127 elements and holds one.
decode_record-total_example : decode_record (1 ∷ 9 ∷ 127 ∷ 0 ∷ []) ≢ fail out_of_fuel
decode_record-total_example = decode_record-total (1 ∷ 9 ∷ 127 ∷ 0 ∷ [])
