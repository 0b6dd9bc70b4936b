-- ===== src/Soql/Executor/Window.antt =====
-- OFFSET and LIMIT (`Execute` and `executeSubQuery` of internal/soql/executor.go). `none` is a panic: of
-- a slice whose bound is negative or beyond the list, which has no spare capacity.
pub mod Pages
use mock_salesforce.Base.{
  ℕ, Bool, true, false, not, ◌&&◌, Option, none, some, List, [], ◌∷◌, length, take, drop, ltb, leb,
  if◌then◌else◌,
}
use mock_salesforce.Base.Int.{ℤ, pos, negsuc, ltb_ℤ}

module _ {ℓ} {A : Type ℓ} where
  -- `records[:n]`
  unfoldable pub slice_to : ℤ → List A → Option (List A)
  slice_to (negsuc n) rs = none
  slice_to (pos n) rs = if leb n (length rs) then some (take n rs) else none

  -- `records[n:]`
  unfoldable pub slice_from : ℤ → List A → Option (List A)
  slice_from (negsuc n) rs = none
  slice_from (pos n) rs = if leb n (length rs) then some (drop n rs) else none

  -- `if offset != nil && *offset > 0 { ... }`
  unfoldable pub skip_offset : Option ℤ → List A → Option (List A)
  unfolding slice_from
  skip_offset none rs = some rs
  skip_offset (some n) rs =
      if ltb_ℤ (pos 0) n
      then (if not (ltb_ℤ n (pos (length rs))) then some [] else slice_from n rs)
      else some rs

  -- `if limit != nil && *limit < len(records) { records = records[:*limit] }`
  unfoldable pub cut_limit : Option ℤ → List A → Option (List A)
  unfolding slice_to
  cut_limit none rs = some rs
  cut_limit (some n) rs = if ltb_ℤ n (pos (length rs)) then slice_to n rs else some rs

  -- The two steps in their order.
  unfoldable pub window : Option ℤ → Option ℤ → List A → Option (List A)
  unfolding skip_offset cut_limit
  window offset limit rs = elim (skip_offset offset rs) [
    | none ↦ none
    | some kept ↦ cut_limit limit kept
  ]
