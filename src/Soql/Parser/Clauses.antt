-- ===== src/Soql/Parser/Clauses.antt =====
-- The fuel of the functions that read no literal number (internal/soql/parser.go).
use mock_salesforce.Base.{◌≡◌, refl, Bool, true, false, ◌||◌, Bytes, arith}
use mock_salesforce.Base.Int.{ℤ, pos, negsuc}
use mock_salesforce.Soql.Token.{TokenType, same_type, and, or, not as not', left_paren, equals}
use mock_salesforce.Soql.Ast.{Field}
use mock_salesforce.Soql.Parser.State.{Parser, Parse}
use mock_salesforce.Soql.Parser.Values.{
  param_value, param_date, ident_value, operator_of, parse_operator,
}
use mock_salesforce.Soql.Parser.Fields.{
  parse_field, bare_aggregate, parse_aggregate, parse_field_or_aggregate, with_alias,
  parse_select_field, parse_group_by, parse_direction, parse_nulls, parse_order_field,
  parse_order_by,
}
use mock_salesforce.Soql.Parser.Statement.{
  optional, optional_number, optional_order, optional_group, subquery_field, expect_from,
}
use mock_salesforce.Soql.Parser.Measure.{
  IsReady, size, weight, weight_of, next_token-Steps, Within, within, refused, Within-le, Within-if,
  Within-bind, Total, total_rules, size-le-fuel_for, new_parser-IsReady,
}
use Prim.Native.String.{String}

Total-param_value : (name text : Bytes) (r : ℤ × Bool) → Total (param_value name text r)
unfolding param_value
Total-param_value name text (pos n, true) = search total_rules
Total-param_value name text (pos n, false) = search total_rules
Total-param_value name text (negsuc n, b) = search total_rules

Total-param_date : (name : Bytes) → Total (param_date name)
unfolding param_date
Total-param_date name = search (total_rules, Total-param_value) depth 12

pub Total-ident_value : (s : Bytes) → Total (ident_value s)
unfolding ident_value
Total-ident_value s = search (total_rules, Total-param_date) depth 8

Total-operator_of : (t : TokenType) → Total (operator_of t)
unfolding operator_of
Total-operator_of equals = search total_rules
Total-operator_of _ = search total_rules

pub Total-parse_operator : Total parse_operator
unfolding parse_operator
Total-parse_operator = record { at = λ p v. (Total-operator_of p.cur_token.type).at p v }

Total-parse_field : Total parse_field
unfolding parse_field
Total-parse_field = search total_rules depth 14

Total-parse_aggregate : (name : Bytes) → Total (parse_aggregate name)
unfolding parse_aggregate bare_aggregate
Total-parse_aggregate name = search (total_rules, Total-parse_field) depth 14

pub Total-parse_field_or_aggregate : Total parse_field_or_aggregate
unfolding parse_field_or_aggregate
Total-parse_field_or_aggregate =
    search (total_rules, Total-parse_field, Total-parse_aggregate) depth 10

Total-with_alias : (f : Field) → Total (with_alias f)
unfolding with_alias
Total-with_alias f = search total_rules

pub Total-parse_select_field : Total parse_select_field
unfolding parse_select_field
Total-parse_select_field =
    search (total_rules, Total-parse_field_or_aggregate, Total-with_alias) depth 12

Total-parse_direction : Total parse_direction
unfolding parse_direction
Total-parse_direction = search total_rules

Total-parse_nulls : Total parse_nulls
unfolding parse_nulls
Total-parse_nulls = search total_rules

Total-parse_order_field : Total parse_order_field
unfolding parse_order_field
Total-parse_order_field =
    search (total_rules, Total-parse_field_or_aggregate, Total-parse_direction, Total-parse_nulls)
      depth 8

Total-parse_order_by : Total parse_order_by
unfolding parse_order_by
Total-parse_order_by = search (total_rules, Total-parse_order_field)

Total-parse_group_by : Total parse_group_by
unfolding parse_group_by
Total-parse_group_by = search (total_rules, Total-parse_field)

pub Total-optional {ℓ} : {A : Type ℓ} (t : TokenType) (m : Parse A) → Total m → Total (optional t m)
unfolding optional
Total-optional t m h = search total_rules

pub Total-optional_number : (t : TokenType) (what : String) → Total (optional_number t what)
unfolding optional_number
Total-optional_number t what = search (total_rules, Total-optional) depth 9

pub Total-optional_order : (what : String) → Total (optional_order what)
unfolding optional_order
Total-optional_order what = search (total_rules, Total-parse_order_by) depth 9

pub Total-optional_group : Total optional_group
unfolding optional_group
Total-optional_group = search (total_rules, Total-parse_group_by) depth 9

pub Total-subquery_field : Total subquery_field
unfolding subquery_field
Total-subquery_field = search (total_rules, Total-parse_field)

pub Total-expect_from : Total expect_from
unfolding expect_from
Total-expect_from = search total_rules depth 7

pub ruleset clause_rules = (
  total_rules, Total-optional, Total-optional_number, Total-optional_order, Total-optional_group,
  Total-subquery_field, Total-expect_from,
)

pub connective_weight :
    (p : Parser)
    → (same_type p.cur_token.type and || same_type p.cur_token.type or) ≡ true
    → weight p.cur_token ≡ 1
unfolding same_type
connective_weight p h = ground arith

pub not_weight : (p : Parser) → same_type p.cur_token.type not' ≡ true → weight p.cur_token ≡ 1
not_weight p c = weight_of p.cur_token not' c (unfold same_type in refl)

pub paren_weight :
    (p : Parser) → same_type p.cur_token.type left_paren ≡ true → weight p.cur_token ≡ 1
paren_weight p c = weight_of p.cur_token left_paren c (unfold same_type in refl)
