-- ===== src/Soql/Executor/Compare.antt =====
-- Comparisons of values (internal/soql/executor.go). `none` is a panic.
use mock_salesforce.Base.{
  ◌-◌, Bool, true, false, not, ◌&&◌, ◌||◌, Option, none, some, Bytes, codes, str_eq, str_lt,
  starts_with, ends_with, contains, is_empty, length, take, drop, ltb, if◌then◌else◌,
}
use mock_salesforce.Base.Int.{ltb_ℤ}
use mock_salesforce.Value.{Value, nil, str, int, float, date, Record}
use mock_salesforce.Value.Access.{find, get, as_object, is_nil}
use mock_salesforce.Soql.Ast.{Field, aggregate_key}
use mock_salesforce.Soql.Dates.{compare_date_literal}
use mock_salesforce.Soql.Executor.Runtime.{Runtime}

-- `getFieldValue`
unfoldable pub get_field_value : Record → Field → Value
unfolding is_empty aggregate_key get
get_field_value r f =
    if not (is_empty f.aggregate)
    then elim (find (aggregate_key f) r) [
      | some v ↦ v
      | none ↦ if not (is_empty f.alias) then get f.alias r else nil
    ]
    else if not (is_empty f.relation)
    then elim (as_object (get f.relation r)) [ some related ↦ get f.name related | none ↦ nil ]
    else get f.name r

-- `matchLike` on lower-case texts: `%x%`, `%x`, `x%` and the rest. The slice `pv[1:len(pv)-1]`
-- panics where the bounds cross.
unfoldable pub like : Bytes → Bytes → Option Bool
like fv pv =
    if starts_with pv (codes "%") && ends_with pv (codes "%")
    then (if ltb (length pv - 1) 1
        then none
        else some (contains fv (take (length pv - 1 - 1) (drop 1 pv))))
    else if starts_with pv (codes "%")
    then some (ends_with fv (drop 1 pv))
    else if ends_with pv (codes "%")
    then some (starts_with fv (take (length pv - 1) pv))
    else some (str_eq fv pv)

module _ (rt : Runtime) where
  unfoldable pub values_equal : Value → Value → Bool
  values_equal a b =
      if is_nil a && is_nil b
      then true
      else if is_nil a || is_nil b
      then false
      else str_eq (rt.format a) (rt.format b)

  unfoldable pub compare_less : Value → Value → Bool
  compare_less (int a) (int b) = ltb_ℤ a b
  compare_less (float a) (float b) = rt.float_lt a b
  compare_less (float a) (int b) = rt.float_lt a (rt.float_of_int b)
  compare_less (str a) (str b) = str_lt a b
  compare_less _ _ = false

  unfoldable pub compare_greater : Value → Value → Bool
  compare_greater (int a) (int b) = ltb_ℤ b a
  compare_greater (float a) (float b) = rt.float_lt b a
  compare_greater (float a) (int b) = rt.float_lt (rt.float_of_int b) a
  compare_greater (str a) (str b) = str_lt b a
  compare_greater _ _ = false

  unfoldable pub match_like : Value → Value → Option Bool
  unfolding like contains ends_with
  match_like (str fv) (str pv) = like (rt.lower fv) (rt.lower pv)
  match_like _ _ = some false

  -- The switch of `compare`.
  unfoldable pub compare_op : Value → Bytes → Value → Option Bool
  unfolding values_equal compare_less compare_greater match_like str_eq
  compare_op a op b =
      if str_eq op (codes "=")
      then some (values_equal a b)
      else if str_eq op (codes "!=")
      then some (not (values_equal a b))
      else if str_eq op (codes "<")
      then some (compare_less a b)
      else if str_eq op (codes "<=")
      then some (compare_less a b || values_equal a b)
      else if str_eq op (codes ">")
      then some (compare_greater a b)
      else if str_eq op (codes ">=")
      then some (compare_greater a b || values_equal a b)
      else if str_eq op (codes "LIKE")
      then match_like a b
      else some false

  unfoldable pub compare : Value → Bytes → Value → Option Bool
  unfolding compare_op compare_date_literal
  compare a op (date d) = some (compare_date_literal rt.calendar rt.now a op d)
  compare a op nil = compare_op a op nil
  compare a op b = compare_op a op b
