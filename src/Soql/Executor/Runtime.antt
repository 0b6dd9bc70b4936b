-- ===== src/Soql/Executor/Runtime.antt =====
-- What the executor uses of Go's packages and does not implement. A `float64` is its bit pattern.
use mock_salesforce.Base.{ℕ, Bool, Option, List, Bytes}
use mock_salesforce.Base.Int.{ℤ}
use mock_salesforce.Value.{Value, Record}
use mock_salesforce.Soql.Dates.{Calendar}

pub record Runtime : Type 1 where
  -- `fmt.Sprintf("%v", v)`, `fmt.Sprintf("%s", v)` and `strings.ToLower(s)`
  pub format : Value → Bytes
  pub format_text : Value → Bytes
  pub lower : Bytes → Bytes
  -- `a < b` on float64, and `float64(n)`
  pub float_lt : ℕ → ℕ → Bool
  pub float_of_int : ℤ → ℕ
  -- `int64(x)`, `a == b`, `a + b` and `a / b` on float64
  pub int_of_float : ℕ → ℤ
  pub float_eq : ℕ → ℕ → Bool
  pub float_add : ℕ → ℕ → ℕ
  pub float_div : ℕ → ℕ → ℕ
  -- `strconv.ParseFloat(s, 64)`, none with an error, and `strconv.Itoa(n)`
  pub parse_float : Bytes → Option ℕ
  pub decimal : ℕ → Bytes
  pub calendar : Calendar
  pub now : calendar.Time
  -- `sort.Slice`, given the test and the records
  pub sort_slice : (Record → Record → Bool) → List Record → List Record
