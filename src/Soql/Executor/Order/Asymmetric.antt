-- ===== src/Soql/Executor/Order/Asymmetric.antt =====
-- The test of the sort on columns of texts (internal/soql/executor.go).
use mock_salesforce.Base.{
  ◌≡◌, refl, Bool, true, false, not, List, [], ◌∷◌, Bytes, str_eq, str_eq_iff, str_lt, arith, All,
}
use mock_salesforce.Value.{Value, nil, str, Record}
use mock_salesforce.Soql.Ast.{OrderByField}
use mock_salesforce.Soql.Executor.Runtime.{Runtime}
use mock_salesforce.Soql.Executor.Compare.{get_field_value, values_equal, compare_less}
use mock_salesforce.Soql.Executor.Order.{column_less, record_less}

-- Of two texts that differ, one is before the other, and not both.
str_lt_total : (s t : Bytes) → str_eq s t ≡ false → str_lt t s ≡ not (str_lt s t)
unfolding str_lt str_eq
str_lt_total [] [] h = ground arith
str_lt_total [] (d ∷ t) h = refl
str_lt_total (c ∷ s) [] h = refl
str_lt_total (c ∷ s) (d ∷ t) h = ground (arith, str_lt_total s t)

str_eq_sym : (s t : Bytes) → str_eq s t ≡ str_eq t s
str_eq_sym s t = ground (arith, str_eq_iff s t, str_eq_iff t s)

abbrev pub IsText : Value → Type 0
IsText nil = Unit
IsText (str s) = Unit
IsText _ = ⊥

-- The columns of the order hold texts or null.
abbrev pub HasTexts : List OrderByField → Record → Type 0
HasTexts obs r = All (λ ob. IsText (get_field_value r ob.field)) obs

module _ (rt : Runtime) (texts : (s : Bytes) → rt.format (str s) ≡ s) where
  values_equal_texts : (s t : Bytes) → values_equal rt (str s) (str t) ≡ str_eq s t
  unfolding values_equal
  values_equal_texts s t = rw (texts s, texts t) refl

  columns :
      (ob : OrderByField) (v w : Value) (rest rest' : Bool)
      → IsText v
      → IsText w
      → (rest ≡ true → rest' ≡ false)
      → column_less rt ob v w rest ≡ true
      → column_less rt ob w v rest' ≡ false
  unfolding column_less compare_less
  columns ob nil nil rest rest' i j k h = k h
  columns ob nil (str t) rest rest' i j k h = ground arith
  columns ob (str s) nil rest rest' i j k h = ground arith
  columns ob (str s) (str t) rest rest' i j k h =
      let e = values_equal_texts s t in
      let f = values_equal_texts t s in
      let g = str_lt_total s t in let r = str_eq_sym s t in ground arith
  columns ob nil _ rest rest' i j k h = elim j [ ]
  columns ob (str s) _ rest rest' i j k h = elim j [ ]
  columns ob _ w rest rest' i j k h = elim i [ ]

  -- If the formatting verb `%v` prints a text as it is, the test of the sort is asymmetric on records
  -- whose columns of the order hold texts or null: of two records, at most one comes before the other.
  pub record_less_asymmetric :
      (obs : List OrderByField) (a b : Record)
      → HasTexts obs a
      → HasTexts obs b
      → record_less rt obs a b ≡ true
      → record_less rt obs b a ≡ false
  unfolding record_less
  record_less_asymmetric [] a b i j h = refl
  record_less_asymmetric (ob ∷ obs) a b (i, is) (j, js) h =
      columns ob (get_field_value a ob.field) (get_field_value b ob.field) _ _ i j
        (record_less_asymmetric obs a b is js) h
