-- ===== src/Soql/Tests.antt =====
-- Queries run through the lexer and the parser, and the laws of the query language at concrete inputs.
mod Rows
mod Results
use mock_salesforce.Base.{
  ℕ, ◌+◌, ◌-◌, ◌*◌, ◌≡◌, ◌≢◌, ◌↔◌, refl, true, false, none, some, List, [], ◌∷◌, Bytes, codes,
  str_eq, arith, length, ◌==◌,
}
use Prim.Native.Nat.{◌/◌, ◌%◌}
use mock_salesforce.Base.Int.{ℤ, pos, negsuc, ◌+ℤ◌, ltb_ℤ, pos_part}
use mock_salesforce.Value.{Value, str, int, nil, DateLiteral, Record, no_fields, field}
use mock_salesforce.Soql.Ast.{Field, Condition, comparison, in_list, logical, negation}
use mock_salesforce.Soql.Lexer.{new_lexer, next_token, advance_while, is_digit}
use mock_salesforce.Soql.Lexer.Progress.{new_lexer-IsValid, advance_while_stops}
use mock_salesforce.Soql.Lexer.Tokens.{Moves, next_token-Moves}
use mock_salesforce.Soql.Parser.{out_of_fuel, parse}
use mock_salesforce.Soql.Parser.Totality.{parse-ne-out_of_fuel}
use mock_salesforce.Soql.Dates.{
  Calendar, add_days, add_months, range, parse_field_time, compare_date_literal,
}
use mock_salesforce.Soql.Dates.Laws.{
  IsOrdered, IsCivil, exactly_one, compare_date_literal_trichotomy, literal, Abut,
}
use mock_salesforce.Soql.Executor.Runtime.{Runtime}
use mock_salesforce.Soql.Executor.{like, condition_filter}
use mock_salesforce.Soql.Executor.Like.{like_panics_iff}
use mock_salesforce.Soql.Executor.Filters.{
  Returns, disjunction, condition_filter-Returns, not_in_lem, de_morgan,
}

abbrev no_floats : Bytes → ℕ
no_floats s = 0

abbrev query_text : Bytes
query_text =
    codes "SELECT Id FROM Case WHERE a = 1 OR b != 'x' AND NOT c IN (TODAY, null, -3) LIMIT 5"

parse-ne-out_of_fuel_example : parse no_floats query_text ≢ out_of_fuel
parse-ne-out_of_fuel_example = parse-ne-out_of_fuel no_floats query_text

next_token-Moves_example : Moves (new_lexer query_text) (next_token (new_lexer query_text))
next_token-Moves_example = next_token-Moves (new_lexer query_text) (new_lexer-IsValid query_text)

like_panics_iff_example : (like (codes "abc") (codes "%") ≡ none) ↔ (codes "%" ≡ codes "%")
like_panics_iff_example = like_panics_iff (codes "abc") (codes "%")

-- Days counted from a Sunday, in months of 30 days and years of 12 months; a text of n bytes is the
-- day n.
abbrev times : ℕ → ℤ → ℤ
times k (pos n) = pos (k * n)
times k (negsuc n) = negsuc (k * n + (k - 1))

abbrev thirties : Calendar
thirties = record {
  Time = ℤ;
  zero_time = pos 0;
  is_zero = λ t. elim t [ pos n ↦ n == 0 | negsuc n ↦ false ];
  before = ltb_ℤ;
  parse_rfc3339_nano = λ s. none;
  parse_rfc3339 = λ s. none;
  parse_millis_zone = λ s. none;
  parse_local = λ s. none;
  parse_day = λ s. some (pos (length s));
  date = λ y m d. times 360 y +ℤ pos (30 * (m - 1) + (d - 1));
  add_date = λ t y m d. ((t +ℤ times 360 y) +ℤ times 30 m) +ℤ d;
  year = λ t. pos (pos_part t / 360);
  month = λ t. pos_part t % 360 / 30 + 1;
  day = λ t. pos_part t % 30 + 1;
  weekday = λ t. pos_part t % 7;
}

there_and_back : (t : ℤ) (k : ℕ) → (t +ℤ negsuc k) +ℤ pos (k + 1) ≡ t
unfolding ◌+ℤ◌
there_and_back t k = ground arith

plus_zero : (t : ℤ) → t +ℤ pos 0 ≡ t
unfolding ◌+ℤ◌
plus_zero t = ground arith

thirties-IsOrdered : IsOrdered thirties
thirties-IsOrdered = record { later = λ t a b h i. ground arith }

week_back : (t : ℤ) → add_days thirties (add_days thirties t (negsuc 6)) (pos 7) ≡ t
unfolding add_days
week_back t = simp plus_zero (there_and_back t 6)

month_back : (t : ℤ) → add_months thirties (add_months thirties t (negsuc 0)) (pos 1) ≡ t
unfolding add_months
month_back t = simp plus_zero (there_and_back t 29)

quarter_back : (t : ℤ) → add_months thirties (add_months thirties t (negsuc 2)) (pos 3) ≡ t
unfolding add_months
quarter_back t = simp plus_zero (there_and_back t 89)

thirties-IsCivil : IsCivil thirties
thirties-IsCivil = record {
  days_back = λ t. week_back _;
  month_back = λ t. month_back _;
  quarter_back = λ t. quarter_back _;
}

abbrev last_days : DateLiteral
last_days = literal 3 (codes "LAST_N_DAYS")

abbrev opened : Value
opened = str (codes "40 days from the start of the calendar..")

compare_date_literal_trichotomy_example :
    exactly_one
      (compare_date_literal thirties (pos 41) opened (codes "<") last_days)
      (compare_date_literal thirties (pos 41) opened (codes "=") last_days)
      (compare_date_literal thirties (pos 41) opened (codes ">") last_days)
    ≡ true
unfolding range parse_field_time ◌+ℤ◌ str_eq add_days
compare_date_literal_trichotomy_example =
    (compare_date_literal_trichotomy thirties thirties-IsOrdered (pos 41) (pos 40) opened last_days
      refl refl refl).0

abbrev pub runtime : Runtime
runtime = record {
  format = λ v. elim v [ str s ↦ s | int n ↦ pos_part n ∷ [] | _ ↦ [] ];
  format_text = λ v. elim v [ str s ↦ s | _ ↦ codes "%!s" ];
  lower = λ s. s;
  float_lt = λ a b. false;
  float_of_int = pos_part;
  int_of_float = pos;
  float_eq = λ a b. a == b;
  float_add = λ a b. a + b;
  float_div = λ a b. a / b;
  parse_float = λ s. none;
  decimal = λ n. (b'0' + n) ∷ [];
  calendar = thirties;
  now = pos 41;
  sort_slice = λ less rs. rs;
}

abbrev pub plain : Bytes → Field
plain name = record { name = name; relation = []; alias = []; aggregate = [] }

abbrev pub status : Field
status = plain (codes "Status")

abbrev pub row : Record
row =
    field (codes "Status") (str (codes "Closed")) (field (codes "Priority") (int (pos 2)) no_fields)

abbrev closed : Condition
closed = comparison status (codes "LIKE") (str (codes "%los%"))

abbrev pub urgent : Condition
urgent = comparison (plain (codes "Priority")) (codes "<") (int (pos 2))

condition_filter-Returns_example :
    Returns (condition_filter runtime (logical (codes "AND") closed (negation urgent)) row)
condition_filter-Returns_example =
    condition_filter-Returns runtime (logical (codes "AND") closed (negation urgent)) row
      (ground arith, tt)
