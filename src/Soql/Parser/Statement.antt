-- ===== src/Soql/Parser/Statement.antt =====
-- Statements: `parseSubQuery`, `parseSelectList` and `Parse`.
use Prim.Native.String.{String}
use mock_salesforce.Base.{
  ℕ, ◌&&◌, Option, none, some, List, [], ◌∷◌, Bytes, ◌⊎◌, inl, inr, if◌then◌else◌,
}
use mock_salesforce.Base.Int.{ℤ}
use mock_salesforce.Soql.Token.{
  TokenType, ident, select, from, where', group, having, order, by, limit, offset, number,
  left_paren, right_paren,
}
use mock_salesforce.Soql.Ast.{Field, OrderByField, SubQuery, SelectStatement}
use mock_salesforce.Soql.Literals.{atoi}
use mock_salesforce.Soql.Parser.State.{
  Parse, expected_at, nested_subqueries, Result, ok, bind, pure, fail, ◌>>=◌, ◌>>◌, advance,
  current, cur_token_is, expect, when, new_parser, peek_token_is, comma_list,
}
use mock_salesforce.Soql.Parser.Fields.{
  parse_field, parse_select_field, parse_group_by, parse_order_by,
}
use mock_salesforce.Soql.Parser.Conditions.{parse_where_clause}

unfoldable pub optional {ℓ} : {A : Type ℓ} → TokenType → Parse A → Parse (Option A)
optional t m = when t (do x ← m; pure (some x)) (pure none)

-- LIMIT and OFFSET: an error of `strconv.Atoi` is dropped.
unfoldable pub optional_number : TokenType → String → Parse (Option ℤ)
unfolding optional
optional_number t what =
    optional t (do expect number what; n ← current; advance; pure (atoi n.literal).0)

unfoldable pub optional_order : String → Parse (List OrderByField)
optional_order what = when order (do expect by what; advance; parse_order_by) (pure [])

-- A field of a subquery's list: a parenthesis there is an error.
unfoldable pub subquery_field : Parse Field
subquery_field = do
  nested ← cur_token_is left_paren
  if nested then fail nested_subqueries else parse_field

-- `stmt.Fields` and `stmt.SubQueries`, which are appended to as the list is read.
unfoldable pub fields_of : List (Field ⊎ SubQuery) → List Field
fields_of [] = []
fields_of (inl f ∷ items) = f ∷ fields_of items
fields_of (inr s ∷ items) = fields_of items

unfoldable pub sub_queries_of : List (Field ⊎ SubQuery) → List SubQuery
sub_queries_of [] = []
sub_queries_of (inl f ∷ items) = sub_queries_of items
sub_queries_of (inr s ∷ items) = s ∷ sub_queries_of items

-- FROM is checked with the position in the message.
unfoldable pub expect_from : Parse (Unit {0})
expect_from = do
  found ← cur_token_is from
  t ← current
  if found then pure tt else fail (expected_at "FROM" t.type t.pos)

unfoldable pub optional_group : Parse (List Field)
unfolding parse_group_by
optional_group = when group (do expect by "BY after GROUP"; advance; parse_group_by) (pure [])

module _ (parse_float : Bytes → ℕ) where
  -- From the optional WHERE on, once the fields and the relationship are read.
  unfoldable pub sub_query_clauses : List Field → Bytes → Parse SubQuery
  sub_query_clauses fields relationship = do
    where_clause ← optional where' (parse_where_clause parse_float)
    orders ← optional_order "BY after ORDER in subquery"
    l ← optional_number limit "number after LIMIT in subquery"
    o ← optional_number offset "number after OFFSET in subquery"
    expect right_paren ") to close subquery"
    advance
    pure (record {
      relationship = relationship;
      fields = fields;
      where' = where_clause;
      order_by = orders;
      limit = l;
      offset = o;
    })

  unfoldable pub parse_sub_query : Parse SubQuery
  parse_sub_query = do
    expect left_paren "( for subquery"
    advance
    expect select "SELECT inside subquery"
    advance
    fields ← comma_list subquery_field
    expect from "FROM in subquery"
    advance
    expect ident "relationship name in subquery"
    t ← current
    advance
    sub_query_clauses fields t.literal

  -- One item of the SELECT list: a subquery, or a field.
  unfoldable pub parse_select_item : Parse (Field ⊎ SubQuery)
  unfolding parse_sub_query
  parse_select_item = do
    paren ← cur_token_is left_paren
    nested ← peek_token_is select
    let sub = paren && nested
    if sub
        then (do s ← parse_sub_query; pure (inr s))
        else (do f ← parse_select_field; pure (inl f))

  unfoldable pub parse_select_list : Parse (List (Field ⊎ SubQuery))
  unfolding comma_list parse_select_item
  parse_select_list = comma_list parse_select_item

  -- `Parse`
  unfoldable pub parse_statement : Parse SelectStatement
  unfolding optional parse_select_list optional_group expect_from optional_number optional_order
      fields_of sub_queries_of
  parse_statement = do
    expect select "SELECT"
    advance
    items ← parse_select_list
    expect_from
    advance
    expect ident "object name"
    t ← current
    advance
    where_clause ← optional where' (parse_where_clause parse_float)
    groups ← optional_group
    having_clause ← optional having (parse_where_clause parse_float)
    orders ← optional_order "BY after ORDER"
    l ← optional_number limit "number after LIMIT"
    o ← optional_number offset "number after OFFSET"
    pure (record {
      fields = fields_of items;
      sub_queries = sub_queries_of items;
      object = t.literal;
      where' = where_clause;
      group_by = groups;
      having = having_clause;
      order_by = orders;
      limit = l;
      offset = o;
    })

  unfoldable pub parse : Bytes → Result SelectStatement
  unfolding ◌>>=◌ parse_statement parse_sub_query sub_query_clauses subquery_field new_parser
  parse input = bind (parse_statement (new_parser input)) λ (s, p). ok s
