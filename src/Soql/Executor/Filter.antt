-- ===== src/Soql/Executor/Filter.antt =====
-- The filters that conditions denote (internal/soql/executor.go). A filter may panic: `none`.
use mock_salesforce.Base.{
  Bool, true, false, not, Option, none, some, List, [], ◌∷◌, codes, str_eq, if◌then◌else◌,
}
use mock_salesforce.Value.{Value, Record}
use mock_salesforce.Soql.Ast.{Condition, comparison, in_list, logical, negation, WhereClause}
use mock_salesforce.Soql.Executor.Runtime.{Runtime}
use mock_salesforce.Soql.Executor.Compare.{get_field_value, compare}

-- `left(r) && right(r)` and `left(r) || right(r)`: the right side is called only if it decides.
abbrev pub and_also : Option Bool → Option Bool → Option Bool
and_also none b = none
and_also (some false) b = some false
and_also (some true) b = b

abbrev pub or_also : Option Bool → Option Bool → Option Bool
or_also none b = none
or_also (some true) b = some true
or_also (some false) b = b

abbrev pub negated : Option Bool → Option Bool
negated none = none
negated (some b) = some (not b)

-- `if found { return answer }`, and the rest of the loop.
abbrev pub return_if : Option Bool → Bool → Option Bool → Option Bool
return_if none answer rest = none
return_if (some true) answer rest = some answer
return_if (some false) answer rest = rest

module _ (rt : Runtime) where
  -- The loop of `buildInFilter`: the answer at the first value that is equal, or at the end.
  unfoldable pub in_values : Value → List Value → Bool → Option Bool
  unfolding compare
  in_values v [] neg = some neg
  in_values v (w ∷ ws) neg = return_if (compare rt v (codes "=") w) (not neg) (in_values v ws neg)

  -- `buildConditionFilter`
  unfoldable pub condition_filter : Condition → Record → Option Bool
  unfolding in_values get_field_value str_eq
  condition_filter (comparison f op v) r = compare rt (get_field_value r f) op v
  condition_filter (in_list f vs neg) r = in_values (get_field_value r f) vs neg
  condition_filter (logical op left right) r =
      let a = condition_filter left r in
      let b = condition_filter right r in
      if str_eq op (codes "AND") then and_also a b else or_also a b
  condition_filter (negation c) r = negated (condition_filter c r)

  -- `buildFilter`; a nil filter takes every record.
  unfoldable pub where_filter : Option WhereClause → Record → Option Bool
  unfolding condition_filter
  where_filter none r = some true
  where_filter (some w) r = condition_filter w.condition r
