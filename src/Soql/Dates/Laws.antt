-- ===== src/Soql/Dates/Laws.antt =====
-- Comparisons with date literals, and neighbouring ranges (internal/soql/date_literal.go).
use mock_salesforce.Base.{
  ◌≡◌, refl, Bool, true, false, not, ◌&&◌, ◌||◌, some, codes, str_eq, arith, ℕ, Bytes,
}
use mock_salesforce.Base.Int.{pos, negsuc}
use mock_salesforce.Value.{Value, DateLiteral}
use mock_salesforce.Soql.Dates.{
  Calendar, add_days, add_months, start_of_week, start_of_month, start_of_quarter, range,
  parse_field_time, compare_date_literal,
}

-- What is before a time is before every time that is not before that time.
pub record IsOrdered (c : Calendar) : Type 0 where
  pub later : (t a b : c.Time) → c.before b a ≡ false → c.before t a ≡ true → c.before t b ≡ true

-- Exactly one of three.
abbrev pub exactly_one : Bool → Bool → Bool → Bool
exactly_one a b c = a && not b && not c || not a && b && not c || not a && not b && c

module _ (c : Calendar) (o : IsOrdered c) where
  -- If what is before a time is before every time that is not before it, then against a literal
  -- whose range does not end before it starts and is not the zero range, a field that holds a time
  -- is before, in or after the range, and only one of these; `!=` is the negation of `=`, `<=` is
  -- `<` or `=`, and `>=` is `>` or `=`.
  pub compare_date_literal_trichotomy :
      (now t : c.Time) (v : Value) (d : DateLiteral)
      → parse_field_time c v ≡ some t
      → (c.is_zero (range c d now).0 && c.is_zero (range c d now).1) ≡ false
      → c.before (range c d now).1 (range c d now).0 ≡ false
      → (exactly_one
            (compare_date_literal c now v (codes "<") d)
            (compare_date_literal c now v (codes "=") d)
            (compare_date_literal c now v (codes ">") d)
          ≡ true)
        × (compare_date_literal c now v (codes "!=") d
            ≡ not (compare_date_literal c now v (codes "=") d))
        × (compare_date_literal c now v (codes "<=") d ≡ (
            compare_date_literal c now v (codes "<") d
            || compare_date_literal c now v (codes "=") d))
        × (compare_date_literal c now v (codes ">=") d ≡ (
            compare_date_literal c now v (codes ">") d
            || compare_date_literal c now v (codes "=") d))
  unfolding compare_date_literal
  compare_date_literal_trichotomy now t v d p z h =
      let r = range c d now in ground (arith, o.later t r.0 r.1 h)

-- Civil arithmetic at the starts of weeks, months and quarters: what is taken off comes back.
pub record IsCivil (c : Calendar) : Type 0 where
  pub days_back :
      (t : c.Time)
      → add_days c (add_days c (start_of_week c t) (negsuc 6)) (pos 7) ≡ start_of_week c t
  pub month_back :
      (t : c.Time)
      → add_months c (add_months c (start_of_month c t) (negsuc 0)) (pos 1) ≡ start_of_month c t
  pub quarter_back :
      (t : c.Time)
      → add_months c (add_months c (start_of_quarter c t) (negsuc 2)) (pos 3) ≡ start_of_quarter c t

abbrev pub literal : ℕ → Bytes → DateLiteral
literal n name = record { name = name; n = n }

module _ (c : Calendar) (civil : IsCivil c) where
  abbrev starts : c.Time → ℕ → Bytes → c.Time
  starts now n name = (range c (literal n name) now).0

  abbrev ends : c.Time → ℕ → Bytes → c.Time
  ends now n name = (range c (literal n name) now).1

  -- Neighbours: yesterday, today and tomorrow; last, this and next week, month and quarter; the last
  -- and the next N days.
  abbrev pub Abut : c.Time → ℕ → Type 0
  Abut now n =
      (ends now n (codes "YESTERDAY") ≡ starts now n (codes "TODAY"))
      × (ends now n (codes "TODAY") ≡ starts now n (codes "TOMORROW"))
      × (ends now n (codes "LAST_WEEK") ≡ starts now n (codes "THIS_WEEK"))
      × (ends now n (codes "THIS_WEEK") ≡ starts now n (codes "NEXT_WEEK"))
      × (ends now n (codes "LAST_MONTH") ≡ starts now n (codes "THIS_MONTH"))
      × (ends now n (codes "THIS_MONTH") ≡ starts now n (codes "NEXT_MONTH"))
      × (ends now n (codes "LAST_QUARTER") ≡ starts now n (codes "THIS_QUARTER"))
      × (ends now n (codes "THIS_QUARTER") ≡ starts now n (codes "NEXT_QUARTER"))
      × (ends now n (codes "LAST_N_DAYS") ≡ starts now n (codes "NEXT_N_DAYS"))

  -- If civil arithmetic gives back what it takes off at the starts of weeks, months and quarters,
  -- the range of a literal ends where that of the next one starts: yesterday, today and tomorrow;
  -- last, this and next week, month and quarter; the last and the next N days.
  pub range_abuts : (now : c.Time) (n : ℕ) → Abut now n
  unfolding range str_eq
  range_abuts now n = (
    refl,
    refl,
    civil.days_back _,
    refl,
    civil.month_back _,
    refl,
    civil.quarter_back _,
    refl,
    refl,
  )
