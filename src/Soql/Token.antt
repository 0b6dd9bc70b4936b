-- ===== src/Soql/Token.antt =====
-- Tokens and keywords (internal/soql/token.go).
use mock_salesforce.Base.{ℕ, Bool, none, some, [], ◌∷◌, Bytes, codes, Assoc, lookup, ◌==◌}

pub data TokenType : Type 0 where
  illegal eof whitespace : TokenType
  ident string number : TokenType
  select from where' and or not in' like null true' false' : TokenType
  order_by order by asc desc limit offset nulls_first nulls_last nulls first last : TokenType
  group having as' : TokenType
  equals not_equals less_than less_equal greater_than greater_equal : TokenType
  comma dot colon left_paren right_paren left_brace right_brace : TokenType

pub record Token : Type 0 where
  pub type : TokenType
  pub literal : Bytes
  pub pos : ℕ

-- The value of the constant, by `iota`.
unfoldable pub iota : TokenType → ℕ
iota illegal = 0
iota eof = 1
iota whitespace = 2
iota ident = 3
iota string = 4
iota number = 5
iota select = 6
iota from = 7
iota where' = 8
iota and = 9
iota or = 10
iota not = 11
iota in' = 12
iota like = 13
iota null = 14
iota true' = 15
iota false' = 16
iota order_by = 17
iota order = 18
iota by = 19
iota asc = 20
iota desc = 21
iota limit = 22
iota offset = 23
iota nulls_first = 24
iota nulls_last = 25
iota nulls = 26
iota first = 27
iota last = 28
iota group = 29
iota having = 30
iota as' = 31
iota equals = 32
iota not_equals = 33
iota less_than = 34
iota less_equal = 35
iota greater_than = 36
iota greater_equal = 37
iota comma = 38
iota dot = 39
iota colon = 40
iota left_paren = 41
iota right_paren = 42
iota left_brace = 43
iota right_brace = 44

-- `a == b` on token types, which are integers.
unfoldable pub same_type : TokenType → TokenType → Bool
unfolding iota
same_type a b = iota a == iota b

keywords : Assoc TokenType
keywords =
    (codes "SELECT", select)
    ∷ (codes "FROM", from)
    ∷ (codes "WHERE", where')
    ∷ (codes "AND", and)
    ∷ (codes "OR", or)
    ∷ (codes "NOT", not)
    ∷ (codes "IN", in')
    ∷ (codes "LIKE", like)
    ∷ (codes "NULL", null)
    ∷ (codes "TRUE", true')
    ∷ (codes "FALSE", false')
    ∷ (codes "ORDER", order)
    ∷ (codes "BY", by)
    ∷ (codes "ASC", asc)
    ∷ (codes "DESC", desc)
    ∷ (codes "LIMIT", limit)
    ∷ (codes "OFFSET", offset)
    ∷ (codes "NULLS", nulls)
    ∷ (codes "FIRST", first)
    ∷ (codes "LAST", last)
    ∷ (codes "GROUP", group)
    ∷ (codes "HAVING", having)
    ∷ (codes "AS", as')
    ∷ []

unfoldable pub lookup_ident : Bytes → TokenType
unfolding keywords lookup
lookup_ident name = elim (lookup name keywords) [ some tok ↦ tok | none ↦ ident ]
