-- ===== src/Soql/Parser/Fields.antt =====
-- Fields and aggregates: `parseField`, `parseFieldOrAggregate`, `parseSelectField`,
-- `parseGroupBy` and `parseOrderBy`.
use mock_salesforce.Base.{
  Bool, true, false, not, ◌&&◌, Option, none, some, List, [], ◌∷◌, Bytes, codes, upper, str_eq, any,
  if◌then◌else◌,
}
use mock_salesforce.Soql.Token.{
  ident, dot, left_paren, right_paren, as', asc, desc, nulls, first, last,
}
use mock_salesforce.Soql.Ast.{Field, OrderByField}
use mock_salesforce.Soql.Parser.State.{
  Parse, expected, requires_argument, unclosed_argument, pure, fail, ◌>>=◌, ◌>>◌, advance, current,
  cur_token_is, peek_token_is, expect, when, comma_list,
}

abbrev pub plain_field : Bytes → Bytes → Field
plain_field relation name = record { name = name; relation = relation; alias = []; aggregate = [] }

unfoldable pub parse_field : Parse Field
parse_field = do
  expect ident "field name"
  t ← current
  advance
  dotted ← cur_token_is dot
  if not dotted then pure (plain_field [] t.literal) else do
    advance
    expect ident "field name after dot"
    u ← current
    advance
    pure (plain_field t.literal u.literal)

aggregate_names : List Bytes
aggregate_names =
    codes "COUNT"
    ∷ codes "COUNT_DISTINCT"
    ∷ codes "SUM"
    ∷ codes "AVG"
    ∷ codes "MIN"
    ∷ codes "MAX"
    ∷ []

unfoldable pub is_aggregate_name : Bytes → Bool
unfolding aggregate_names
is_aggregate_name s = any (str_eq s) aggregate_names

-- `AGG()`, which only COUNT may be.
unfoldable pub bare_aggregate : Bytes → Parse Field
bare_aggregate name =
    if not (str_eq name (codes "COUNT"))
    then fail (requires_argument name)
    else (do advance; pure (record { name = []; relation = []; alias = []; aggregate = name }))

-- From the function's name on: `AGG(field)` or `COUNT()`.
unfoldable pub parse_aggregate : Bytes → Parse Field
unfolding parse_field bare_aggregate
parse_aggregate name = do
  advance
  advance
  closed ← cur_token_is right_paren
  if closed then bare_aggregate name else do
    inner ← parse_field
    done ← cur_token_is right_paren
    t ← current
    if not done then fail (unclosed_argument name t.type) else do
      advance
      pure (record { name = inner.name; relation = inner.relation; alias = []; aggregate = name })

unfoldable pub parse_field_or_aggregate : Parse Field
unfolding parse_aggregate parse_field
parse_field_or_aggregate = do
  named ← cur_token_is ident
  t ← current
  if not named then fail (expected "field name" t.type) else do
    called ← peek_token_is left_paren
    let isagg = called && is_aggregate_name (upper t.literal)
    if isagg then parse_aggregate (upper t.literal) else parse_field

unfoldable pub with_alias : Field → Parse Field
with_alias f = do t ← current; advance; pure (record f { alias = t.literal })

unfoldable pub parse_select_field : Parse Field
unfolding with_alias parse_field_or_aggregate
parse_select_field = do
  f ← parse_field_or_aggregate
  when as'
      (do
        named ← cur_token_is ident
        t ← current
        if not named then fail (expected "alias after AS" t.type) else with_alias f)
      (do named ← cur_token_is ident; if named then with_alias f else pure f)

unfoldable pub parse_group_by : Parse (List Field)
unfolding comma_list parse_field
parse_group_by = comma_list parse_field

-- ASC or DESC
unfoldable pub parse_direction : Parse Bool
parse_direction = when asc (pure false) (when desc (pure true) (pure false))

-- NULLS FIRST or NULLS LAST; NULLS alone is skipped.
unfoldable pub parse_nulls : Parse (Option Bool)
parse_nulls =
    when nulls (when first (pure (some true)) (when last (pure (some false)) (pure none)))
      (pure none)

unfoldable pub parse_order_field : Parse OrderByField
unfolding parse_direction parse_nulls parse_field_or_aggregate
parse_order_field = do
  f ← parse_field_or_aggregate
  d ← parse_direction
  n ← parse_nulls
  pure (record { field = f; descending = d; nulls_first = n })

unfoldable pub parse_order_by : Parse (List OrderByField)
unfolding comma_list parse_order_field
parse_order_by = comma_list parse_order_field
