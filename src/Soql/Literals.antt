-- ===== src/Soql/Literals.antt =====
-- What the parser reads off the text of a token: integers as strconv.Atoi does, and the names of
-- date literals (internal/soql/date_literal.go).
use mock_salesforce.Base.{
  ℕ, ◌+◌, ◌-◌, ◌*◌, ◌^◌, Bool, true, false, ◌∷◌, [], List, Bytes, codes, str_eq, any, ltb, leb,
  ◌==◌, if◌then◌else◌,
}
use mock_salesforce.Base.Int.{ℤ, pos, negsuc}
use mock_salesforce.Soql.Lexer.{is_digit}

-- strconv.ParseUint on decimal text: a value, or a syntax error, or a value past 64 bits.
pub data Digits : Type 0 where
  value : ℕ → Digits
  syntax range : Digits

unfoldable pub digits : ℕ → Bytes → Digits
unfolding is_digit
digits n [] = value n
digits n (c ∷ s) =
    let rest = digits (n * 10 + (c - b'0')) s in
    if is_digit c then (if leb (2 ^ 64) (n * 10 + (c - b'0')) then range else rest) else syntax

abbrev unsigned : Bytes → Digits
unsigned [] = syntax
unsigned (c ∷ s) = digits 0 (c ∷ s)

-- `-n`
abbrev pub negate : ℕ → ℤ
negate n = if n == 0 then pos 0 else negsuc (n - 1)

-- The sign is put back, and a value out of range is clamped; the flag says that there is no error.
abbrev signed : Bool → Digits → ℤ × Bool
signed neg syntax = (pos 0, false)
signed false range = (pos (2 ^ 63 - 1), false)
signed true range = (negate (2 ^ 63), false)
signed false (value n) = if leb (2 ^ 63) n then (pos (2 ^ 63 - 1), false) else (pos n, true)
signed true (value n) = if ltb (2 ^ 63) n then (negate (2 ^ 63), false) else (negate n, true)

-- `strconv.Atoi(s)`: the integer, and whether it was read without an error.
unfoldable pub atoi : Bytes → ℤ × Bool
unfolding digits
atoi [] = signed false (unsigned [])
atoi (c ∷ s) =
    if c == b'-'
    then signed true (unsigned s)
    else if c == b'+'
    then signed false (unsigned s)
    else signed false (unsigned (c ∷ s))

simple_date_literals : List Bytes
simple_date_literals =
    codes "YESTERDAY"
    ∷ codes "TODAY"
    ∷ codes "TOMORROW"
    ∷ codes "LAST_WEEK"
    ∷ codes "THIS_WEEK"
    ∷ codes "NEXT_WEEK"
    ∷ codes "LAST_MONTH"
    ∷ codes "THIS_MONTH"
    ∷ codes "NEXT_MONTH"
    ∷ codes "LAST_QUARTER"
    ∷ codes "THIS_QUARTER"
    ∷ codes "NEXT_QUARTER"
    ∷ codes "LAST_YEAR"
    ∷ codes "THIS_YEAR"
    ∷ codes "NEXT_YEAR"
    ∷ codes "LAST_90_DAYS"
    ∷ codes "NEXT_90_DAYS"
    ∷ []

param_date_literals : List Bytes
param_date_literals =
    codes "LAST_N_DAYS"
    ∷ codes "NEXT_N_DAYS"
    ∷ codes "N_DAYS_AGO"
    ∷ codes "LAST_N_WEEKS"
    ∷ codes "NEXT_N_WEEKS"
    ∷ codes "N_WEEKS_AGO"
    ∷ codes "LAST_N_MONTHS"
    ∷ codes "NEXT_N_MONTHS"
    ∷ codes "N_MONTHS_AGO"
    ∷ codes "LAST_N_QUARTERS"
    ∷ codes "NEXT_N_QUARTERS"
    ∷ codes "N_QUARTERS_AGO"
    ∷ codes "LAST_N_YEARS"
    ∷ codes "NEXT_N_YEARS"
    ∷ codes "N_YEARS_AGO"
    ∷ []

unfoldable pub is_simple_date_literal : Bytes → Bool
unfolding simple_date_literals str_eq
is_simple_date_literal name = any (str_eq name) simple_date_literals

unfoldable pub is_param_date_literal : Bytes → Bool
unfolding param_date_literals str_eq
is_param_date_literal name = any (str_eq name) param_date_literals
