-- ===== src/Soql/Lexer.antt =====
-- The lexer (internal/soql/lexer.go). A method takes the lexer and returns the one that it leaves.
-- The loops take fuel: one more than the bytes that are left is enough (Lexer/Progress).
pub mod Progress
pub mod Tokens
use Prim.Native.Nat.{◌/◌, ◌%◌}
use mock_salesforce.Base.{
  ℕ, zero, suc, ◌+◌, ◌-◌, Bool, true, false, ◌&&◌, ◌||◌, [], ◌∷◌, Bytes, codes, upper, length,
  get_or, take, drop, ltb, leb, ◌==◌, if◌then◌else◌,
}
use mock_salesforce.Soql.Token.{
  TokenType, Token, lookup_ident, illegal, eof, string, number, equals, not_equals, less_than,
  less_equal, greater_than, greater_equal, comma, dot, colon, left_paren, right_paren,
}

pub record Lexer : Type 0 where
  pub input : Bytes
  pub pos : ℕ
  pub read_pos : ℕ
  pub ch : ℕ

-- Past the end of the input the current byte is 0.
unfoldable pub read_char : Lexer → Lexer
read_char l = record l {
  pos = l.read_pos;
  read_pos = l.read_pos + 1;
  ch = get_or l.input l.read_pos 0;
}

unfoldable pub new_lexer : Bytes → Lexer
unfolding read_char
new_lexer input = read_char (record { input = input; pos = 0; read_pos = 0; ch = 0 })

unfoldable pub peek_char : Lexer → ℕ
peek_char l = get_or l.input l.read_pos 0

-- `l.input[from:to]`
abbrev pub slice : Bytes → ℕ → ℕ → Bytes
slice s from to = take (to - from) (drop from s)

-- `unicode.IsLetter(rune(ch))` for a byte, which is read as a Latin-1 character.
unfoldable pub is_letter : ℕ → Bool
is_letter c =
    leb b'A' c && leb c b'Z'
    || leb b'a' c && leb c b'z'
    || c == 0xAA
    || c == 0xB5
    || c == 0xBA
    || leb 0xC0 c && leb c 0xD6
    || leb 0xD8 c && leb c 0xF6
    || leb 0xF8 c && leb c 0xFF

unfoldable pub is_digit : ℕ → Bool
is_digit c = leb b'0' c && leb c b'9'

unfoldable pub is_space : ℕ → Bool
is_space c = c == b' ' || c == b'\t' || c == b'\n' || c == b'\r'

unfoldable pub is_ident_byte : ℕ → Bool
unfolding is_letter is_digit
is_ident_byte c = is_letter c || is_digit c || c == b'_'

-- `for p(l.ch) { l.readChar() }`
unfoldable pub advance_while : (ℕ → Bool) → ℕ → Lexer → Lexer
advance_while p zero l = l
advance_while p (suc fuel) l = elim (p l.ch) [
  | true ↦ advance_while p fuel (read_char l)
  | false ↦ l
]

-- Fuel for a loop that starts here.
abbrev pub enough : Lexer → ℕ
enough l = suc (length l.input - l.pos)

unfoldable pub skip_whitespace : Lexer → Lexer
skip_whitespace l = advance_while is_space (enough l) l

unfoldable pub read_identifier : Lexer → Bytes × Lexer
read_identifier l =
    let l' = advance_while is_ident_byte (enough l) l in (slice l.input l.pos l'.pos, l')

pub skip_digits : Lexer → Lexer
skip_digits l = advance_while is_digit (enough l) l

-- The sign, if there is one.
pub skip_minus : Lexer → Lexer
skip_minus l = if l.ch == b'-' then read_char l else l

-- A dot that a digit follows, and the digits after it.
pub skip_fraction : Lexer → Lexer
skip_fraction l = if l.ch == b'.' && is_digit (peek_char l) then skip_digits (read_char l) else l

unfoldable pub read_number : Lexer → Bytes × Lexer
unfolding skip_digits skip_minus skip_fraction
read_number l =
    let l' = skip_fraction (skip_digits (skip_minus l)) in (slice l.input l.pos l'.pos, l')

-- `\'` inside a string: the backslash is skipped first.
pub skip_escape : Lexer → Lexer
skip_escape l = if l.ch == b'\\' && peek_char l == b'\'' then read_char l else l

unfoldable pub string_body : ℕ → Lexer → Lexer
unfolding skip_escape
string_body zero l = l
string_body (suc fuel) l = elim (l.ch == b'\'' || l.ch == 0) [
  | true ↦ l
  | false ↦ string_body fuel (read_char (skip_escape l))
]

pub skip_quote : Lexer → Lexer
skip_quote l = if l.ch == b'\'' then read_char l else l

unfoldable pub read_string : Lexer → Bytes × Lexer
unfolding skip_quote
read_string l =
    let start = read_char l in
    let stop = string_body (enough start) start in
    (slice start.input start.pos stop.pos, skip_quote stop)

-- `string(ch)`: the UTF-8 encoding of the byte read as a code point.
abbrev pub byte_string : ℕ → Bytes
byte_string c = if ltb c 128 then c ∷ [] else (192 + c / 64) ∷ (128 + c % 64) ∷ []

abbrev token : TokenType → Bytes → ℕ → Token
token t s p = record { type = t; literal = s; pos = p }

-- A token that ends with the current byte: `l.readChar(); return tok`.
single : Lexer → TokenType → Bytes → Token × Lexer
unfolding read_char
single l t s = (token t s l.pos, read_char l)

-- A token of two bytes: one more `l.readChar()` before it.
double : Lexer → TokenType → Bytes → Token × Lexer
unfolding read_char
double l t s = let l' = read_char l in (token t s (l'.pos - 1), read_char l')

-- `tok.Type = t; tok.Literal = ...; return tok`
scanned : TokenType → ℕ → Bytes × Lexer → Token × Lexer
scanned t p (s, l) = (token t s p, l)

scanned_word : ℕ → Bytes × Lexer → Token × Lexer
scanned_word p (s, l) = (token (lookup_ident (upper s)) s p, l)

-- `default:` of the switch.
other_token : Lexer → Token × Lexer
unfolding scanned scanned_word single
other_token l =
    if is_letter l.ch || l.ch == b'_'
    then scanned_word l.pos (read_identifier l)
    else if is_digit l.ch || l.ch == b'-' && is_digit (peek_char l)
    then scanned number l.pos (read_number l)
    else single l illegal (byte_string l.ch)

-- The switch, at the first byte that is no whitespace.
unfoldable pub scan : Lexer → Token × Lexer
unfolding single double scanned other_token
scan l =
    if l.ch == b'='
    then single l equals (codes "=")
    else if l.ch == b'!'
    then (if peek_char l == b'='
        then double l not_equals (codes "!=")
        else single l illegal (byte_string l.ch))
    else if l.ch == b'<'
    then (if peek_char l == b'='
        then double l less_equal (codes "<=")
        else if peek_char l == b'>'
        then double l not_equals (codes "<>")
        else single l less_than (codes "<"))
    else if l.ch == b'>'
    then (if peek_char l == b'='
        then double l greater_equal (codes ">=")
        else single l greater_than (codes ">"))
    else if l.ch == b','
    then single l comma (codes ",")
    else if l.ch == b'.'
    then single l dot (codes ".")
    else if l.ch == b':'
    then single l colon (codes ":")
    else if l.ch == b'('
    then single l left_paren (codes "(")
    else if l.ch == b')'
    then single l right_paren (codes ")")
    else if l.ch == b'\''
    then scanned string l.pos (read_string l)
    else if l.ch == 0
    then single l eof []
    else other_token l

unfoldable pub next_token : Lexer → Token × Lexer
next_token l = scan (skip_whitespace l)
