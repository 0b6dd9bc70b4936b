-- ===== src/Soql/Parser/Values.antt =====
-- `parseValue`, `parseInValues` and `parseOperator`. `strconv.ParseFloat` is a parameter.
use mock_salesforce.Base.{
  ℕ, Bool, true, false, not, List, Bytes, codes, upper, any, ◌==◌, if◌then◌else◌,
}
use mock_salesforce.Base.Int.{ℤ, pos}
use mock_salesforce.Value.{Value, nil, str, int, float, bool, date}
use mock_salesforce.Soql.Token.{
  TokenType, string, number, true', false', null, ident, colon, left_paren, right_paren, equals,
  not_equals, less_than, less_equal, greater_than, greater_equal,
}
use mock_salesforce.Soql.Literals.{atoi, is_simple_date_literal, is_param_date_literal}
use mock_salesforce.Soql.Parser.State.{
  Parse, expected, expected_colon, expected_number, invalid_parameter, identifier_as_value,
  expected_value, pure, fail, ◌>>=◌, ◌>>◌, advance, current, cur_token_is, expect, comma_list,
}

-- `if err != nil || n < 0 { ... }`, and the literal otherwise.
unfoldable pub param_value : Bytes → Bytes → ℤ × Bool → Parse Value
param_value name text (pos n, true) = do advance; pure (date (record { name = name; n = n }))
param_value name text _ = fail (invalid_parameter name text)

-- The colon and the number after the name of a parameterised date literal.
unfoldable pub param_date : Bytes → Parse Value
unfolding param_value
param_date name = do
  c ← cur_token_is colon
  if not c then (do t ← current; fail (expected_colon name t.type)) else do
    advance
    isnum ← cur_token_is number
    t ← current
    if not isnum
        then fail (expected_number name t.type)
        else param_value name t.literal (atoi t.literal)

unfoldable pub ident_value : Bytes → Parse Value
unfolding param_date
ident_value literal =
    let name = upper literal in
    if is_simple_date_literal name
    then (do advance; pure (date (record { name = name; n = 0 })))
    else if is_param_date_literal name
    then (do advance; param_date name)
    else fail (identifier_as_value literal)

-- `parseOperator`
unfoldable pub operator_of : TokenType → Parse Bytes
operator_of equals = do advance; pure (codes "=")
operator_of not_equals = do advance; pure (codes "!=")
operator_of less_than = do advance; pure (codes "<")
operator_of less_equal = do advance; pure (codes "<=")
operator_of greater_than = do advance; pure (codes ">")
operator_of greater_equal = do advance; pure (codes ">=")
operator_of t = fail (expected "operator" t)

unfoldable pub parse_operator : Parse Bytes
unfolding operator_of
parse_operator p = operator_of p.cur_token.type p

module _ (parse_float : Bytes → ℕ) where
  unfoldable pub number_value : Bytes → Value
  number_value s = if any (λ c. c == b'.') s then float (parse_float s) else int (atoi s).0

  -- The switch of `parseValue` on the type of the current token.
  unfoldable pub value_of : TokenType → Bytes → Parse Value
  unfolding number_value ident_value
  value_of string s = do advance; pure (str s)
  value_of number s = do advance; pure (number_value s)
  value_of true' s = do advance; pure (bool true)
  value_of false' s = do advance; pure (bool false)
  value_of null s = do advance; pure nil
  value_of ident s = ident_value s
  value_of t s = fail (expected_value t s)

  unfoldable pub parse_value : Parse Value
  unfolding value_of
  parse_value p = value_of p.cur_token.type p.cur_token.literal p

  unfoldable pub parse_in_values : Parse (List Value)
  unfolding comma_list
  parse_in_values = do
    expect left_paren "( after IN"
    advance
    values ← comma_list parse_value
    expect right_paren ") after IN values"
    advance
    pure values
