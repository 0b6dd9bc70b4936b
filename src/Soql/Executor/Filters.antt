-- ===== src/Soql/Executor/Filters.antt =====
-- Laws of the filters that conditions denote (internal/soql/executor.go).
use mock_salesforce.Base.{
  ◌≡◌, ◌≢◌, refl, sym, ◌∙◌, Bool, true, false, not, Option, none, some, List, [], ◌∷◌, Bytes, codes,
  str_eq, arith, if◌then◌else◌,
}
use mock_salesforce.Value.{Value, nil, str, date, Record}
use mock_salesforce.Soql.Ast.{Field, Condition, comparison, in_list, logical, negation}
use mock_salesforce.Soql.Executor.Runtime.{Runtime}
use mock_salesforce.Soql.Executor.Compare.{get_field_value, compare, compare_op, match_like, like}
use mock_salesforce.Soql.Executor.Filter.{
  in_values, condition_filter, return_if, and_also, or_also, negated,
}
use mock_salesforce.Soql.Executor.Like.{like_panics_iff}

-- The filter does not panic.
abbrev pub Returns : Option Bool → Type 0
Returns o = o ≢ none

and_also-Returns : (a b : Option Bool) → Returns a → Returns b → Returns (and_also a b)
and_also-Returns none b x y = x
and_also-Returns (some true) b x y = y
and_also-Returns (some false) b x y = ground arith

or_also-Returns : (a b : Option Bool) → Returns a → Returns b → Returns (or_also a b)
or_also-Returns none b x y = x
or_also-Returns (some true) b x y = ground arith
or_also-Returns (some false) b x y = y

return_if-Returns :
    (a b : Option Bool) (c : Bool) → Returns a → Returns b → Returns (return_if a c b)
return_if-Returns none b c x y = x
return_if-Returns (some true) b c x y = ground arith
return_if-Returns (some false) b c x y = y

negated-Returns : (a : Option Bool) → Returns a → Returns (negated a)
negated-Returns none x = x
negated-Returns (some a) x = ground arith

return_if-or_also : (a b : Option Bool) → return_if a true b ≡ or_also a b
return_if-or_also none b = refl
return_if-or_also (some true) b = refl
return_if-or_also (some false) b = refl

return_if-negated :
    (a b : Option Bool) → return_if a false (negated b) ≡ negated (return_if a true b)
return_if-negated none b = refl
return_if-negated (some true) b = refl
return_if-negated (some false) b = refl

or_also-false : (a : Option Bool) → or_also a (some false) ≡ a
or_also-false none = refl
or_also-false (some true) = refl
or_also-false (some false) = refl

de_morgan_and : (a b : Option Bool) → negated (and_also a b) ≡ or_also (negated a) (negated b)
de_morgan_and none b = refl
de_morgan_and (some true) b = refl
de_morgan_and (some false) b = refl

de_morgan_or : (a b : Option Bool) → negated (or_also a b) ≡ and_also (negated a) (negated b)
de_morgan_or none b = refl
de_morgan_or (some true) b = refl
de_morgan_or (some false) b = refl

-- `x = y` with each of the values in turn, joined by OR.
pub disjunction : Field → Value → List Value → Condition
disjunction f v [] = comparison f (codes "=") v
disjunction f v (w ∷ ws) = logical (codes "OR") (comparison f (codes "=") v) (disjunction f w ws)

module _ (rt : Runtime) where
  -- The operand is not a text that is one percent sign in lower case.
  abbrev IsSafeOperand : Value → Type 0
  IsSafeOperand (str p) = rt.lower p ≢ codes "%"
  IsSafeOperand _ = Unit

  -- No comparison has such an operand.
  abbrev pub IsSafe : Condition → Type 0
  IsSafe (comparison f op v) = IsSafeOperand v
  IsSafe (in_list f vs neg) = Unit
  IsSafe (logical op a b) = IsSafe a × IsSafe b
  IsSafe (negation c) = IsSafe c

  like-Returns : (s p : Bytes) → p ≢ codes "%" → Returns (like s p)
  like-Returns s p n = λ e. n ((like_panics_iff s p).0 e)

  match_like-Returns : (a b : Value) → IsSafeOperand b → Returns (match_like rt a b)
  unfolding match_like
  match_like-Returns (str a) (str b) n = like-Returns (rt.lower a) (rt.lower b) n
  match_like-Returns _ _ n = ground arith

  compare_op-Returns : (a b : Value) (op : Bytes) → IsSafeOperand b → Returns (compare_op rt a op b)
  unfolding compare_op
  compare_op-Returns a b op n = let m = match_like-Returns a b n in ground arith

  compare-Returns : (a b : Value) (op : Bytes) → IsSafeOperand b → Returns (compare rt a op b)
  unfolding compare
  compare-Returns a (date d) op n = ground arith
  compare-Returns a nil op n = compare_op-Returns a nil op n
  compare-Returns a b op n = compare_op-Returns a b op n

  -- An equality test always answers.
  equality-Returns : (a b : Value) → Returns (compare rt a (codes "=") b)
  unfolding compare compare_op str_eq
  equality-Returns a (date d) = ground arith
  equality-Returns a _ = ground arith

  in_values-Returns : (v : Value) (ws : List Value) (neg : Bool) → Returns (in_values rt v ws neg)
  unfolding in_values
  in_values-Returns v [] neg = ground arith
  in_values-Returns v (w ∷ ws) neg =
      return_if-Returns (compare rt v (codes "=") w) _ (not neg) (equality-Returns v w)
        (in_values-Returns v ws neg)

  -- A filter answers on every record, where no comparison of its condition has the operand '%'.
  pub condition_filter-Returns :
      (c : Condition) (r : Record) → IsSafe c → Returns (condition_filter rt c r)
  unfolding condition_filter
  condition_filter-Returns (comparison f op v) r n = compare-Returns (get_field_value r f) v op n
  condition_filter-Returns (in_list f vs neg) r n = in_values-Returns (get_field_value r f) vs neg
  condition_filter-Returns (logical op a b) r (m, n) =
      let p = condition_filter rt a r in
      let q = condition_filter rt b r in
      let x = condition_filter-Returns a r m in
      let y = condition_filter-Returns b r n in
      elim (str_eq op (codes "AND")) as (λ t. Returns (if t then and_also p q else or_also p q)) [
        | true ↦ and_also-Returns p q x y
        | false ↦ or_also-Returns p q x y
      ]
  condition_filter-Returns (negation c) r n = negated-Returns _ (condition_filter-Returns c r n)

  in_values-negated :
      (v : Value) (ws : List Value) → in_values rt v ws true ≡ negated (in_values rt v ws false)
  unfolding in_values
  in_values-negated v [] = refl
  in_values-negated v (w ∷ ws) =
      rw (in_values-negated v ws)
        (return_if-negated (compare rt v (codes "=") w) (in_values rt v ws false))

  -- NOT IN is the negation of IN.
  pub not_in_lem :
      (f : Field) (vs : List Value) (r : Record)
      → condition_filter rt (in_list f vs true) r
        ≡ condition_filter rt (negation (in_list f vs false)) r
  unfolding condition_filter
  not_in_lem f vs r = in_values-negated (get_field_value r f) vs

  -- IN takes the records that the OR of the equalities takes.
  pub in-disjunction :
      (f : Field) (v : Value) (vs : List Value) (r : Record)
      → condition_filter rt (in_list f (v ∷ vs) false) r
        ≡ condition_filter rt (disjunction f v vs) r
  unfolding condition_filter in_values disjunction str_eq
  in-disjunction f v [] r =
      let o = compare rt (get_field_value r f) (codes "=") v in
      return_if-or_also o (some false) ∙ or_also-false o
  in-disjunction f v (w ∷ ws) r =
      rw (sym (in-disjunction f w ws r))
        (return_if-or_also (compare rt (get_field_value r f) (codes "=") v) _)

  -- De Morgan's laws, with the order in which the sides are called.
  pub de_morgan :
      (a b : Condition) (r : Record)
      → (condition_filter rt (negation (logical (codes "AND") a b)) r
          ≡ condition_filter rt (logical (codes "OR") (negation a) (negation b)) r)
        × (condition_filter rt (negation (logical (codes "OR") a b)) r
            ≡ condition_filter rt (logical (codes "AND") (negation a) (negation b)) r)
  unfolding condition_filter str_eq
  de_morgan a b r = (de_morgan_and _ _, de_morgan_or _ _)
