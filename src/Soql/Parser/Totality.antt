-- ===== src/Soql/Parser/Totality.antt =====
-- The fuel of the recursive descent (internal/soql/parser.go).
use mock_salesforce.Base.{ℕ, zero, suc, ◌+◌, ◌<◌, ◌≢◌, Bool, ◌||◌, List, Bytes, arith}
use mock_salesforce.Soql.Token.{
  TokenType, same_type, and, or, not as not', left_paren, right_paren, string, ident,
}
use mock_salesforce.Soql.Ast.{Field, Condition}
use mock_salesforce.Soql.Parser.State.{
  Parser, Result, ok, out_of_fuel, bind, next_token, new_parser, fuel_for,
}
use mock_salesforce.Soql.Parser.Values.{value_of, parse_value, parse_in_values}
use mock_salesforce.Soql.Parser.Conditions.{
  in_condition, like_condition, operator_condition, parse_predicate, parse_condition, parse_logical,
  parse_simple_condition, condition, parse_where_clause,
}
use mock_salesforce.Soql.Parser.Statement.{
  sub_query_clauses, parse_sub_query, parse_select_item, parse_select_list, parse_statement, parse,
}
use mock_salesforce.Soql.Parser.Measure.{
  IsReady, size, next_token-Steps, Within, within, refused, Within-le, Within-if, Within-bind,
  Total, total_rules, size-le-fuel_for, new_parser-IsReady,
}
use mock_salesforce.Soql.Parser.Clauses.{
  Total-ident_value, Total-parse_operator, Total-parse_field_or_aggregate, Total-parse_select_field,
  clause_rules, connective_weight, not_weight, paren_weight,
}

statement_of-ne {ℓ} :
    {A : Type ℓ} {n : ℕ} (r : Result (A × Parser))
    → Within n r
    → bind r (λ (s, p). ok s) ≢ out_of_fuel
statement_of-ne _ (within v h) = cc
statement_of-ne _ refused = cc

module _ (pf : Bytes → ℕ) where
  Total-value_of : (t : TokenType) (s : Bytes) → Total (value_of pf t s)
  unfolding value_of
  Total-value_of string s = search total_rules
  Total-value_of ident s = Total-ident_value s
  Total-value_of _ s = search total_rules

  Total-parse_value : Total (parse_value pf)
  unfolding parse_value
  Total-parse_value = record {
    at = λ p v. (Total-value_of p.cur_token.type p.cur_token.literal).at p v;
  }

  Total-parse_in_values : Total (parse_in_values pf)
  unfolding parse_in_values
  Total-parse_in_values = search (total_rules, Total-parse_value) depth 12

  Total-in_condition : (f : Field) (negated : Bool) → Total (in_condition pf f negated)
  unfolding in_condition
  Total-in_condition f negated = search (total_rules, Total-parse_in_values)

  Total-like_condition : (f : Field) → Total (like_condition pf f)
  unfolding like_condition
  Total-like_condition f = search (total_rules, Total-parse_value)

  Total-operator_condition : (f : Field) → Total (operator_condition pf f)
  unfolding operator_condition
  Total-operator_condition f = search (total_rules, Total-parse_value, Total-parse_operator)

  Total-parse_predicate : Total (parse_predicate pf)
  unfolding parse_predicate
  Total-parse_predicate =
      search
        (
          total_rules, Total-parse_field_or_aggregate, Total-in_condition, Total-like_condition,
          Total-operator_condition,
        )
        depth 12

  -- Each round, NOT and bracket reads a token, at two units of fuel for each.
  mutual
    unfolding parse_condition

    parse_condition-Within :
        (fuel : ℕ) (p : Parser)
        → IsReady p
        → size p + size p + 1 < fuel
        → Within (size p) (parse_condition pf fuel p)
    parse_condition-Within zero p v h = absurd (omega arith)
    parse_condition-Within (suc fuel) p v h =
        Within-bind _ (parse_simple_condition-Within fuel p v (omega arith))
          λ left q w le. Within-le (parse_logical-Within fuel left q w (omega arith)) le

    parse_logical-Within :
        (fuel : ℕ) (left : Condition) (p : Parser)
        → IsReady p
        → size p + size p < fuel
        → Within (size p) (parse_logical pf fuel left p)
    parse_logical-Within zero left p v h = absurd (omega arith)
    parse_logical-Within (suc fuel) left p v h =
        Within-if (same_type p.cur_token.type and || same_type p.cur_token.type or)
          (λ c.
            let s = next_token-Steps p v in
            let one = connective_weight p c in
            Within-bind _
              (parse_simple_condition-Within fuel (next_token p) s.ready (omega (arith, s.smaller)))
              λ right q w le.
                Within-le (parse_logical-Within fuel _ q w (omega (arith, s.smaller)))
                  (omega (arith, s.smaller)))
          (λ _. within v (omega arith))

    parse_simple_condition-Within :
        (fuel : ℕ) (p : Parser)
        → IsReady p
        → size p + size p < fuel
        → Within (size p) (parse_simple_condition pf fuel p)
    parse_simple_condition-Within zero p v h = absurd (omega arith)
    parse_simple_condition-Within (suc fuel) p v h =
        let s = next_token-Steps p v in
        Within-if (same_type p.cur_token.type not')
          (λ c.
            let one = not_weight p c in
            Within-bind _
              (parse_simple_condition-Within fuel (next_token p) s.ready (omega (arith, s.smaller)))
              λ c q w le. within w (omega (arith, s.smaller)))
          λ _.
            Within-if (same_type p.cur_token.type left_paren)
              (λ c.
                let one = paren_weight p c in
                Within-bind _
                  (parse_condition-Within fuel (next_token p) s.ready (omega (arith, s.smaller)))
                  λ c q w le.
                    Within-if (same_type q.cur_token.type right_paren)
                      (λ _.
                        let t = next_token-Steps q w in
                        within t.ready (omega (arith, s.smaller, t.smaller)))
                      (λ _. refused))
              (λ _. Total-parse_predicate.at p v)

  Total-condition : Total (condition pf)
  unfolding condition
  Total-condition = record {
    at = λ p v. parse_condition-Within (fuel_for p) p v (omega (arith, size-le-fuel_for p));
  }

  Total-parse_where_clause : Total (parse_where_clause pf)
  unfolding parse_where_clause
  Total-parse_where_clause = search (total_rules, Total-condition)

  Total-sub_query_clauses :
      (fields : List Field) (s : Bytes) → Total (sub_query_clauses pf fields s)
  unfolding sub_query_clauses
  Total-sub_query_clauses fields s = search (clause_rules, Total-parse_where_clause) depth 14

  Total-parse_sub_query : Total (parse_sub_query pf)
  unfolding parse_sub_query
  Total-parse_sub_query = search (clause_rules, Total-sub_query_clauses) depth 13 fits 20000

  Total-parse_select_item : Total (parse_select_item pf)
  unfolding parse_select_item
  Total-parse_select_item =
      search (total_rules, Total-parse_sub_query, Total-parse_select_field) depth 8

  Total-parse_select_list : Total (parse_select_list pf)
  unfolding parse_select_list
  Total-parse_select_list = search (total_rules, Total-parse_select_item)

  Total-parse_statement : Total (parse_statement pf)
  unfolding parse_statement
  Total-parse_statement =
      search (clause_rules, Total-parse_select_list, Total-parse_where_clause) depth 24 fits 20000

  -- `NewParser(input).Parse()` returns a statement or an error, whatever the input.
  pub parse-ne-out_of_fuel : (input : Bytes) → parse pf input ≢ out_of_fuel
  unfolding parse
  parse-ne-out_of_fuel input =
      statement_of-ne _ (Total-parse_statement.at (new_parser input) (new_parser-IsReady input))
