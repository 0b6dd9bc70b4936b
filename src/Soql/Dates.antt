-- ===== src/Soql/Dates.antt =====
-- Date literals (internal/soql/date_literal.go): the half-open range of each, and the comparison of
-- a field with one (`compareDateLiteral` of internal/soql/executor.go).
-- Package time is the parameter `Calendar`: instants, and the civil calendar at the location of now.
pub mod Laws
use mock_salesforce.Base.{
  ℕ, ◌+◌, ◌-◌, ◌*◌, Bool, true, false, not, ◌&&◌, ◌||◌, Option, none, some, List, [], ◌∷◌, Bytes,
  codes, str_eq, Assoc, lookup, if◌then◌else◌,
}
use Prim.Native.Nat.{◌/◌}
use mock_salesforce.Base.Int.{ℤ, pos, negsuc, sub_ℕ, ◌+ℤ◌}
use mock_salesforce.Value.{Value, str, DateLiteral}
use mock_salesforce.Soql.Literals.{negate}

pub record Calendar : Type 1 where
  pub Time : Type 0
  -- `time.Time{}`, `t.IsZero()` and `t.Before(u)`
  pub zero_time : Time
  pub is_zero : Time → Bool
  pub before : Time → Time → Bool
  -- `time.Parse(layout, s)` for one of the five layouts that `parseFieldTime` tries
  pub parse_rfc3339_nano : Bytes → Option Time
  pub parse_rfc3339 : Bytes → Option Time
  pub parse_millis_zone : Bytes → Option Time
  pub parse_local : Bytes → Option Time
  pub parse_day : Bytes → Option Time
  -- `time.Date(y, m, d, 0, 0, 0, 0, loc)` and `t.AddDate(y, m, d)`
  pub date : ℤ → ℕ → ℕ → Time
  pub add_date : Time → ℤ → ℤ → ℤ → Time
  pub year : Time → ℤ
  pub month : Time → ℕ
  pub day : Time → ℕ
  -- Sunday is 0.
  pub weekday : Time → ℕ

module _ (c : Calendar) where
  open c use {Time, zero_time, is_zero, before, date, add_date, year, month, day, weekday}

  unfoldable pub add_days : Time → ℤ → Time
  add_days t n = add_date t (pos 0) (pos 0) n

  unfoldable pub add_months : Time → ℤ → Time
  add_months t n = add_date t (pos 0) n (pos 0)

  unfoldable pub add_years : Time → ℤ → Time
  add_years t n = add_date t n (pos 0) (pos 0)

  unfoldable pub start_of_week : Time → Time
  start_of_week t = add_days t (negate (weekday t))

  unfoldable pub start_of_month : Time → Time
  start_of_month t = date (year t) (month t) 1

  unfoldable pub start_of_quarter : Time → Time
  start_of_quarter t = date (year t) ((month t - 1) / 3 * 3 + 1) 1

  abbrev pub Range : Type 0
  Range = Time × Time

  -- `return s, s.AddDate(0, 0, n)`, and the same for months and years
  abbrev days_from : Time → ℕ → Range
  days_from s n = (s, add_days s (pos n))

  abbrev months_from : Time → ℕ → Range
  months_from s n = (s, add_months s (pos n))

  abbrev year_from : Time → Range
  year_from s = (s, add_years s (pos 1))

  -- The switch of `Range`, at midnight of today.
  range_table : Time → ℕ → Assoc Range
  range_table today n =
      let week = start_of_week today in
      let month = start_of_month today in
      let quarter = start_of_quarter today in
      (codes "YESTERDAY", (add_days today (negsuc 0), today))
      ∷ (codes "TODAY", (today, add_days today (pos 1)))
      ∷ (codes "TOMORROW", (add_days today (pos 1), add_days today (pos 2)))
      ∷ (codes "LAST_WEEK", days_from (add_days week (negsuc 6)) 7)
      ∷ (codes "THIS_WEEK", days_from week 7)
      ∷ (codes "NEXT_WEEK", days_from (add_days week (pos 7)) 7)
      ∷ (codes "LAST_MONTH", months_from (add_months month (negsuc 0)) 1)
      ∷ (codes "THIS_MONTH", months_from month 1)
      ∷ (codes "NEXT_MONTH", months_from (add_months month (pos 1)) 1)
      ∷ (codes "LAST_QUARTER", months_from (add_months quarter (negsuc 2)) 3)
      ∷ (codes "THIS_QUARTER", months_from quarter 3)
      ∷ (codes "NEXT_QUARTER", months_from (add_months quarter (pos 3)) 3)
      ∷ (codes "LAST_YEAR", year_from (date (year today +ℤ negsuc 0) 1 1))
      ∷ (codes "THIS_YEAR", year_from (date (year today) 1 1))
      ∷ (codes "NEXT_YEAR", year_from (date (year today +ℤ pos 1) 1 1))
      ∷ (codes "LAST_90_DAYS", (add_days today (negsuc 89), add_days today (pos 1)))
      ∷ (codes "NEXT_90_DAYS", (add_days today (pos 1), add_days today (pos 91)))
      ∷ (codes "LAST_N_DAYS", (add_days today (negate n), add_days today (pos 1)))
      ∷ (codes "NEXT_N_DAYS", (add_days today (pos 1), add_days today (pos (n + 1))))
      ∷ (codes "N_DAYS_AGO", days_from (add_days today (negate n)) 1)
      ∷ (codes "LAST_N_WEEKS", (add_days week (negate (7 * n)), week))
      ∷ (codes "NEXT_N_WEEKS", days_from (add_days week (pos 7)) (7 * n))
      ∷ (codes "N_WEEKS_AGO", days_from (add_days week (negate (7 * n))) 7)
      ∷ (codes "LAST_N_MONTHS", (add_months month (negate n), month))
      ∷ (codes "NEXT_N_MONTHS", months_from (add_months month (pos 1)) n)
      ∷ (codes "N_MONTHS_AGO", months_from (add_months month (negate n)) 1)
      ∷ []

  -- The switch of `rangeQuarterYear`.
  quarter_year_table : Time → ℕ → Assoc Range
  quarter_year_table today n =
      let quarter = start_of_quarter today in
      (codes "LAST_N_QUARTERS", (add_months quarter (negate (3 * n)), quarter))
      ∷ (codes "NEXT_N_QUARTERS", months_from (add_months quarter (pos 3)) (3 * n))
      ∷ (codes "N_QUARTERS_AGO", months_from (add_months quarter (negate (3 * n))) 3)
      ∷ (codes "LAST_N_YEARS", (date (year today +ℤ negate n) 1 1, date (year today) 1 1))
      ∷ (
        codes "NEXT_N_YEARS",
        (date (year today +ℤ pos 1) 1 1, date (year today +ℤ pos (1 + n)) 1 1),
      )
      ∷ (codes "N_YEARS_AGO", year_from (date (year today +ℤ negate n) 1 1))
      ∷ []

  -- An unknown name has the zero range.
  unfoldable pub range_quarter_year : DateLiteral → Time → Range
  unfolding quarter_year_table lookup
  range_quarter_year d today = elim (lookup d.name (quarter_year_table today d.n)) [
    | some r ↦ r
    | none ↦ (zero_time, zero_time)
  ]

  unfoldable pub range : DateLiteral → Time → Range
  unfolding range_table range_quarter_year
  range d now =
      let today = date (year now) (month now) (day now) in
      elim (lookup d.name (range_table today d.n)) [
        | some r ↦ r
        | none ↦ range_quarter_year d today
      ]

  abbrev or_else {ℓ} : {A : Type ℓ} → Option A → Option A → Option A
  or_else (some a) o = some a
  or_else none o = o

  -- `parseFieldTime`: the first of the five layouts that fits.
  unfoldable pub parse_field_time : Value → Option Time
  parse_field_time (str s) = or_else (c.parse_rfc3339_nano s) (
      or_else (c.parse_rfc3339 s)
        (or_else (c.parse_millis_zone s) (or_else (c.parse_local s) (c.parse_day s))))
  parse_field_time _ = none

  -- The switch of `compareDateLiteral`.
  unfoldable pub in_range : Time → Bytes → Range → Bool
  unfolding str_eq
  in_range t op (start, end) =
      if str_eq op (codes "=")
      then not (before t start) && before t end
      else if str_eq op (codes "!=")
      then before t start || not (before t end)
      else if str_eq op (codes "<")
      then before t start
      else if str_eq op (codes "<=")
      then before t end
      else if str_eq op (codes ">")
      then not (before t end)
      else if str_eq op (codes ">=")
      then not (before t start)
      else false

  unfoldable pub compare_date_literal : Time → Value → Bytes → DateLiteral → Bool
  unfolding parse_field_time in_range
  compare_date_literal now v op d = elim (parse_field_time v) [
    | none ↦ false
    | some t ↦ let r = range d now in if is_zero r.0 && is_zero r.1 then false else in_range t op r
  ]
