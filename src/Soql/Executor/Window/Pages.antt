-- ===== src/Soql/Executor/Window/Pages.antt =====
-- OFFSET and LIMIT as pages (internal/soql/executor.go).
use mock_salesforce.Base.{
  ℕ, suc, zero, ◌+◌, ◌≤◌, ◌≡◌, ◌↔◌, refl, sym, ap, ◌∙◌, Bool, true, false, Option, none, some, List,
  [], ◌∷◌, ◌++◌, length, take, drop, ltb, leb, inl, inr, Bool-cases, arith,
}
use native.Mathlib.Numerals.{unary_clauses}
use mock_salesforce.Base.Int.{ℤ, pos, negsuc}
use mock_salesforce.Soql.Executor.Window.{skip_offset, cut_limit, window}

-- The integer is there and is negative.
abbrev pub is_negative : Option ℤ → Bool
is_negative (some (negsuc n)) = true
is_negative _ = false

module _ {ℓ} {A : Type ℓ} where
  drop_all : (n : ℕ) (rs : List A) → length rs ≤ n → drop n rs ≡ []
  drop_all zero [] h = refl
  drop_all zero (r ∷ rs) h = absurd (omega arith)
  drop_all (suc n) [] h = refl
  drop_all (suc n) (r ∷ rs) h = drop_all n rs (omega arith)

  take_all : (n : ℕ) (rs : List A) → length rs ≤ n → take n rs ≡ rs
  take_all zero [] h = refl
  take_all zero (r ∷ rs) h = absurd (omega arith)
  take_all (suc n) [] h = refl
  take_all (suc n) (r ∷ rs) h = ap (λ t. r ∷ t) (take_all n rs (omega arith))

  pub skip_offset-drop : (n : ℕ) (rs : List A) → skip_offset (some (pos n)) rs ≡ some (drop n rs)
  unfolding skip_offset
  skip_offset-drop zero rs = refl
  skip_offset-drop (suc n) rs =
      let positive : ltb (0 + 0) (suc n + 0) ≡ true = ground arith in
      elim (Bool-cases (ltb (suc n) (length rs))) [
        | inl h ↦
            let within : leb (suc n) (length rs) ≡ true = ground arith in
            let below : ltb (suc n + 0) (length rs + 0) ≡ true = ground arith in
            rw (positive, below, within) refl
        | inr h ↦
            let above : ltb (suc n + 0) (length rs + 0) ≡ false = ground arith in
            rw (positive, above) (ap some (sym (drop_all (suc n) rs (ground arith))))
      ]

  pub skip_offset-negsuc : (n : ℕ) (rs : List A) → skip_offset (some (negsuc n)) rs ≡ some rs
  unfolding skip_offset
  skip_offset-negsuc n rs =
      let never : ltb (0 + suc n) (0 + 0) ≡ false = ground arith in rw never refl

  -- What OFFSET leaves, which never panics.
  pub skip_offset-returns :
      (offset : Option ℤ) (rs : List A) → (kept : List A) × (skip_offset offset rs ≡ some kept)
  unfolding skip_offset
  skip_offset-returns none rs = (rs, refl)
  skip_offset-returns (some (pos n)) rs = (drop n rs, skip_offset-drop n rs)
  skip_offset-returns (some (negsuc n)) rs = (rs, skip_offset-negsuc n rs)

  pub cut_limit-take : (n : ℕ) (rs : List A) → cut_limit (some (pos n)) rs ≡ some (take n rs)
  unfolding cut_limit
  cut_limit-take n rs = elim (Bool-cases (ltb n (length rs))) [
    | inl h ↦
        let within : leb n (length rs) ≡ true = ground arith in
        let below : ltb (n + 0) (length rs + 0) ≡ true = ground arith in rw (below, within) refl
    | inr h ↦
        let above : ltb (n + 0) (length rs + 0) ≡ false = ground arith in
        rw above (ap some (sym (take_all n rs (ground arith))))
  ]

  pub window-take :
      (o n : ℕ) (rs : List A) → window (some (pos o)) (some (pos n)) rs ≡ some (take n (drop o rs))
  unfolding window
  window-take o n rs = rw (skip_offset-drop o rs, window) (cut_limit-take n (drop o rs))

  take_split : (m n : ℕ) (rs : List A) → take m rs ++ take n (drop m rs) ≡ take (m + n) rs
  take_split zero n rs = let z : 0 + n ≡ n = omega arith in rw z refl
  take_split (suc m) zero [] = simp unary_clauses refl
  take_split (suc m) (suc n) [] = simp unary_clauses refl
  take_split (suc m) n (r ∷ rs) =
      let z : suc m + n ≡ suc (m + n) = omega arith in rw z (ap (λ t. r ∷ t) (take_split m n rs))

  drop-drop : (o m : ℕ) (rs : List A) → drop m (drop o rs) ≡ drop (o + m) rs
  drop-drop zero m rs = let z : 0 + m ≡ m = omega arith in rw z refl
  drop-drop (suc o) zero [] = simp unary_clauses refl
  drop-drop (suc o) (suc m) [] = simp unary_clauses refl
  drop-drop (suc o) m (r ∷ rs) =
      let z : suc o + m ≡ suc (o + m) = omega arith in rw z (drop-drop o m rs)

  -- Two pages that follow one another, of m and n rows from the offset o, neither of which panics,
  -- are together the page of m + n rows from o.
  pub window-append :
      (o m n : ℕ) (rs : List A)
      → (first : List A) × (second : List A) × (window (some (pos o)) (some (pos m)) rs
          ≡ some first)
        × (window (some (pos (o + m))) (some (pos n)) rs ≡ some second)
        × (window (some (pos o)) (some (pos (m + n))) rs ≡ some (first ++ second))
  window-append o m n rs = (
    take m (drop o rs),
    take n (drop (o + m) rs),
    window-take o m rs,
    window-take (o + m) n rs,
    window-take o (m + n) rs
        ∙ ap some (
            sym (take_split m n (drop o rs))
            ∙ ap (λ t. take m (drop o rs) ++ take n t) (drop-drop o m rs)),
  )

  cut_limit_panics_iff :
      (limit : Option ℤ) (rs : List A) → (cut_limit limit rs ≡ none) ↔ (is_negative limit ≡ true)
  unfolding cut_limit
  cut_limit_panics_iff none rs = ground arith
  cut_limit_panics_iff (some (pos n)) rs = let cut = cut_limit-take n rs in ground arith
  cut_limit_panics_iff (some (negsuc n)) rs = ground arith

  -- A window panics exactly if the limit is negative: no offset does, and no limit or offset that is
  -- beyond the list.
  pub window_panics_iff :
      (offset limit : Option ℤ) (rs : List A)
      → (window offset limit rs ≡ none) ↔ (is_negative limit ≡ true)
  unfolding window
  window_panics_iff offset limit rs =
      let (kept, e) = skip_offset-returns offset rs in
      rw (e, window) (cut_limit_panics_iff limit kept)
