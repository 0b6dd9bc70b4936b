-- ===== src/Soql/Parser/State.antt =====
-- The parser's state, its outcomes, and its steps on the current token.
use Prim.Native.String.{String}
use mock_salesforce.Base.{
  ℕ, zero, suc, ◌+◌, ◌*◌, ◌-◌, Bool, List, [], ◌∷◌, Bytes, length, if◌then◌else◌,
}
use mock_salesforce.Soql.Token.{TokenType, Token, same_type, illegal, comma}
use mock_salesforce.Soql.Lexer
use mock_salesforce.Soql.Lexer.{Lexer, new_lexer}

pub record Parser : Type 0 where
  pub lexer : Lexer
  pub cur_token : Token
  pub peek_token : Token
  pub errors : List Bytes

-- The `fmt.Errorf` calls, with the values that they print.
pub data ParseError : Type 0 where
  expected : String → TokenType → ParseError
  expected_at : String → TokenType → ℕ → ParseError
  requires_argument : Bytes → ParseError
  unclosed_argument : Bytes → TokenType → ParseError
  nested_subqueries : ParseError
  expected_colon expected_number : Bytes → TokenType → ParseError
  invalid_parameter : Bytes → Bytes → ParseError
  identifier_as_value : Bytes → ParseError
  expected_value : TokenType → Bytes → ParseError

-- `out_of_fuel` has no counterpart in the program.
pub data Result {ℓ} (A : Type ℓ) : Type ℓ where
  ok : A → Result A
  err : ParseError → Result A
  out_of_fuel : Result A

abbrev pub bind {ℓ κ} : {A : Type ℓ} {B : Type κ} → Result A → (A → Result B) → Result B
bind (ok a) f = f a
bind (err e) f = err e
bind out_of_fuel f = out_of_fuel

-- A method: the value that it returns, and the parser that it leaves.
abbrev pub Parse {ℓ} : Type ℓ → Type ℓ
Parse A = Parser → Result (A × Parser)

unfoldable pub pure {ℓ} : {A : Type ℓ} → A → Parse A
pure a p = ok (a, p)

unfoldable pub fail {ℓ} : {A : Type ℓ} → ParseError → Parse A
fail e p = err e

-- `nextToken`
unfoldable pub next_token : Parser → Parser
next_token p =
    let (tok, l) = Lexer.next_token p.lexer in
    record p { lexer = l; cur_token = p.peek_token; peek_token = tok }

abbrev empty_token : Token
empty_token = record { type = illegal; literal = []; pos = 0 }

-- `&Parser{lexer: NewLexer(input)}`
abbrev pub unread : Bytes → Parser
unread input = record {
  lexer = new_lexer input;
  cur_token = empty_token;
  peek_token = empty_token;
  errors = [];
}

unfoldable pub new_parser : Bytes → Parser
unfolding next_token new_lexer
new_parser input = next_token (next_token (unread input))

unfoldable pub advance : Parse (Unit {0})
advance p = ok (tt, next_token p)

unfoldable pub current : Parse Token
current p = ok (p.cur_token, p)

-- `curTokenIs`, and `expectCurrent`, which is the same test.
unfoldable pub cur_token_is : TokenType → Parse Bool
cur_token_is t p = ok (same_type p.cur_token.type t, p)

unfoldable pub peek_token_is : TokenType → Parse Bool
peek_token_is t p = ok (same_type p.peek_token.type t, p)

-- `if !p.expectCurrent(t) { return ..., fmt.Errorf("expected what, got %s", p.curToken.Type) }`
unfoldable pub expect : TokenType → String → Parse (Unit {0})
expect t what p =
    if same_type p.cur_token.type t then ok (tt, p) else err (expected what p.cur_token.type)

-- `if p.curTokenIs(t) { p.nextToken(); ... }`
unfoldable pub when {ℓ} : {A : Type ℓ} → TokenType → Parse A → Parse A → Parse A
when t m n p = if same_type p.cur_token.type t then m (next_token p) else n p

module _ {ℓ κ} {A : Type ℓ} {B : Type κ} where
  infixl 1 ◌>>=◌ ◌>>◌
  -- To open this is to open the steps above.
  unfoldable pub ◌>>=◌ : Parse A → (A → Parse B) → Parse B
  unfolding pure fail advance current cur_token_is peek_token_is expect when next_token
  m >>= f = λ p. bind (m p) λ (a, q). f a q

  abbrev pub ◌>>◌ : Parse A → Parse B → Parse B
  m >> n = m >>= λ _. n

-- Fuel for the loops and the recursion, from the bytes that the lexer has not read.
unfoldable pub fuel_for : Parser → ℕ
fuel_for p = 2 * (length p.lexer.input - p.lexer.pos) + 6

-- `for { item; append; if !p.curTokenIs(TokenComma) { break }; p.nextToken() }`
unfoldable pub comma_separated {ℓ} : {A : Type ℓ} → ℕ → Parse A → Parse (List A)
comma_separated zero item p = out_of_fuel
comma_separated (suc fuel) item p = bind (item p) λ (x, q).
    let more = bind (comma_separated fuel item (next_token q)) λ (xs, r). ok (x ∷ xs, r) in
    if same_type q.cur_token.type comma then more else ok (x ∷ [], q)

unfoldable pub comma_list {ℓ} : {A : Type ℓ} → Parse A → Parse (List A)
unfolding comma_separated fuel_for
comma_list item p = comma_separated (fuel_for p) item p
