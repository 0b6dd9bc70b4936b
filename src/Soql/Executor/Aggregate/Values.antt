-- ===== src/Soql/Executor/Aggregate/Values.antt =====
-- The values of aggregates (internal/soql/aggregate.go).
use mock_salesforce.Base.{
  ℕ, ◌+◌, zero, suc, Bool, true, false, not, ◌&&◌, Option, none, some, List, [], ◌∷◌, Bytes, codes,
  is_empty, str_eq, str_lt, Assoc, insert, length, if◌then◌else◌,
}
use mock_salesforce.Base.Int.{pos}
use mock_salesforce.Value.{Value, nil, str, int, float, Record}
use mock_salesforce.Value.Access.{get, is_nil}
use mock_salesforce.Soql.Ast.{Field}
use mock_salesforce.Soql.Executor.Runtime.{Runtime}

-- The records in which a field has a value, counted.
unfoldable pub count_values : Bytes → List Record → ℕ
unfolding get
count_values name [] = 0
count_values name (r ∷ rs) =
    let n = count_values name rs in if is_nil (get name r) then n else n + 1

module _ (rt : Runtime) where
  -- The set `seen` of COUNT_DISTINCT
  unfoldable pub seen_values : Bytes → List Record → Assoc (Unit {0}) → Assoc (Unit {0})
  unfolding get insert
  seen_values name [] seen = seen
  seen_values name (r ∷ rs) seen =
      seen_values name rs
        (if is_nil (get name r) then seen else insert (rt.format (get name r)) tt seen)

  -- `numericValue`
  unfoldable pub numeric_value : Value → Option ℕ
  numeric_value (int n) = some (rt.float_of_int n)
  numeric_value (float x) = some x
  numeric_value (str s) = rt.parse_float s
  numeric_value _ = none

  -- `x == float64(int64(x))`
  unfoldable pub is_whole : ℕ → Bool
  is_whole x = rt.float_eq x (rt.float_of_int (rt.int_of_float x))

  -- The loop of SUM, on the sum and `hadInt`; the bits of 0.0 are 0.
  unfoldable pub sum_values : Bytes → List Record → ℕ → Bool → ℕ × Bool
  unfolding get numeric_value is_whole
  sum_values name [] sum had_int = (sum, had_int)
  sum_values name (r ∷ rs) sum had_int = elim (numeric_value (get name r)) [
    | none ↦ sum_values name rs sum had_int
    | some x ↦ sum_values name rs (rt.float_add sum x) (is_whole x && had_int)
  ]

  unfoldable pub sum_result : ℕ × Bool → Value
  sum_result (sum, had_int) = if had_int then int (rt.int_of_float sum) else float sum

  -- The loop of AVG, on the sum and the count.
  unfoldable pub average_values : Bytes → List Record → ℕ → ℕ → ℕ × ℕ
  unfolding get numeric_value
  average_values name [] sum n = (sum, n)
  average_values name (r ∷ rs) sum n = elim (numeric_value (get name r)) [
    | none ↦ average_values name rs sum n
    | some x ↦ average_values name rs (rt.float_add sum x) (n + 1)
  ]

  unfoldable pub average_result : ℕ × ℕ → Value
  average_result (sum, zero) = nil
  average_result (sum, suc n) = float (rt.float_div sum (rt.float_of_int (pos (suc n))))

  -- `cmpLess`
  unfoldable pub cmp_less : Value → Value → Bool
  unfolding numeric_value str_lt
  cmp_less a b = elim (numeric_value a) [
    | none ↦ str_lt (rt.format a) (rt.format b)
    | some x ↦ elim (numeric_value b) [
      | none ↦ str_lt (rt.format a) (rt.format b)
      | some y ↦ rt.float_lt x y
    ]
  ]

  -- The value that MIN or MAX keeps of the best so far and the next.
  unfoldable pub better : Bool → Value → Value → Value
  unfolding cmp_less
  better least best v =
      if is_nil best then v else if (if cmp_less v best then least else not least) then v else best

  -- The loop of `aggregateExtreme`, from the best so far.
  unfoldable pub aggregate_extreme : Bytes → Bool → List Record → Value → Value
  unfolding get better
  aggregate_extreme name least [] best = best
  aggregate_extreme name least (r ∷ rs) best =
      let v = get name r in
      aggregate_extreme name least rs (if is_nil v then best else better least best v)

  -- `computeAggregate`
  unfoldable pub compute_aggregate : Field → List Record → Value
  unfolding str_eq is_empty count_values seen_values sum_values sum_result average_values
      average_result aggregate_extreme
  compute_aggregate f rs =
      if str_eq f.aggregate (codes "COUNT")
      then int (pos (if is_empty f.name then length rs else count_values f.name rs))
      else if str_eq f.aggregate (codes "COUNT_DISTINCT")
      then int (pos (length (seen_values f.name rs [])))
      else if str_eq f.aggregate (codes "SUM")
      then sum_result (sum_values f.name rs 0 true)
      else if str_eq f.aggregate (codes "AVG")
      then average_result (average_values f.name rs 0 0)
      else if str_eq f.aggregate (codes "MIN")
      then aggregate_extreme f.name true rs nil
      else if str_eq f.aggregate (codes "MAX")
      then aggregate_extreme f.name false rs nil
      else nil
