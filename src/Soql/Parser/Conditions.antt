-- ===== src/Soql/Parser/Conditions.antt =====
-- Conditions: `parseCondition` and `parseSimpleCondition`. The recursion takes fuel.
use mock_salesforce.Base.{ℕ, zero, suc, Bool, true, false, ◌||◌, Bytes, codes, upper, if◌then◌else◌}
use mock_salesforce.Soql.Token.{same_type, and, or, not as not', in', like, left_paren, right_paren}
use mock_salesforce.Soql.Ast.{Field, Condition, comparison, in_list, logical, negation, WhereClause}
use mock_salesforce.Soql.Parser.State.{
  Parse, expected, ok, err, out_of_fuel, bind, pure, fail, ◌>>=◌, current, when, next_token,
  fuel_for,
}
use mock_salesforce.Soql.Parser.Values.{parse_value, parse_in_values, parse_operator}
use mock_salesforce.Soql.Parser.Fields.{parse_field_or_aggregate}

module _ (parse_float : Bytes → ℕ) where
  -- IN and a list of values, after a NOT or without.
  unfoldable pub in_condition : Field → Bool → Parse Condition
  in_condition f negated = do values ← parse_in_values parse_float; pure (in_list f values negated)

  unfoldable pub like_condition : Field → Parse Condition
  like_condition f = do value ← parse_value parse_float; pure (comparison f (codes "LIKE") value)

  unfoldable pub operator_condition : Field → Parse Condition
  operator_condition f = do
    op ← parse_operator
    value ← parse_value parse_float
    pure (comparison f op value)

  -- What `parseSimpleCondition` does from the field on.
  unfoldable pub parse_predicate : Parse Condition
  unfolding in_condition like_condition operator_condition
  parse_predicate = do
    f ← parse_field_or_aggregate
    when not'
        (when in' (in_condition f true) (do t ← current; fail (expected "IN after NOT" t.type)))
        (when in' (in_condition f false) (when like (like_condition f) (operator_condition f)))

  unfoldable mutual
    pub parse_condition : ℕ → Parse Condition
    parse_condition zero p = out_of_fuel
    parse_condition (suc fuel) p =
        bind (parse_simple_condition fuel p) λ (left, q). parse_logical fuel left q

    -- `for p.curTokenIs(TokenAnd) || p.curTokenIs(TokenOr)`
    pub parse_logical : ℕ → Condition → Parse Condition
    parse_logical zero left p = out_of_fuel
    parse_logical (suc fuel) left p =
        let more =
          bind (parse_simple_condition fuel (next_token p))
            λ (right, q). parse_logical fuel (logical (upper p.cur_token.literal) left right) q in
        if same_type p.cur_token.type and || same_type p.cur_token.type or
        then more
        else ok (left, p)

    pub parse_simple_condition : ℕ → Parse Condition
    parse_simple_condition zero p = out_of_fuel
    parse_simple_condition (suc fuel) p =
        let negated =
          bind (parse_simple_condition fuel (next_token p)) λ (c, q). ok (negation c, q) in
        let bracketed = bind (parse_condition fuel (next_token p)) λ (c, q).
          if same_type q.cur_token.type right_paren
          then ok (c, next_token q)
          else err (expected ")" q.cur_token.type) in
        if same_type p.cur_token.type not'
        then negated
        else if same_type p.cur_token.type left_paren
        then bracketed
        else parse_predicate p

  -- The call `p.parseCondition()`, with its fuel.
  unfoldable pub condition : Parse Condition
  unfolding parse_condition fuel_for
  condition p = parse_condition (fuel_for p) p

  -- `parseWhereClause`
  unfoldable pub parse_where_clause : Parse WhereClause
  unfolding condition
  parse_where_clause = do c ← condition; pure (record { condition = c })
