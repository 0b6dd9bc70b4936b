-- ===== src/Soql/Executor/Like.antt =====
-- LIKE against a description of its patterns, on lower-case texts (internal/soql/executor.go).
pub mod Wildcards
use mock_salesforce.Base.{
  suc, ◌+◌, ◌-◌, ◌≡◌, ◌≢◌, refl, ◌↔◌, Bool, true, false, Option, none, some, [], ◌∷◌, ◌++◌, Bytes,
  str_eq, str_eq_iff, starts_with, ends_with, contains, length, length-append, arith, ltb,
}
use mock_salesforce.Base.Search.{
  starts_with-append, ends_with_cons_false, starts_with_append_false, ends_with-append, take-append,
  contains_iff, ends_with_iff, starts_with_iff,
}
use mock_salesforce.Soql.Executor.Compare.{like}

-- What a pattern asks for, with its outer percent signs.
pub data Pattern : Type 0 where
  anywhere at_end at_start whole : Bytes → Pattern

unfoldable pub pattern_text : Pattern → Bytes
pattern_text (anywhere x) = b'%' ∷ (x ++ b'%' ∷ [])
pattern_text (at_end x) = b'%' ∷ x
pattern_text (at_start x) = x ++ b'%' ∷ []
pattern_text (whole x) = x

-- The text matches.
abbrev pub Matches : Pattern → Bytes → Type 0
Matches (anywhere x) s = (a : Bytes) × (b : Bytes) × (s ≡ a ++ (x ++ b))
Matches (at_end x) s = (a : Bytes) × (s ≡ a ++ x)
Matches (at_start x) s = (b : Bytes) × (s ≡ x ++ b)
Matches (whole x) s = s ≡ x

-- The text has no percent sign where the pattern has none, and is not empty beside one.
abbrev pub IsPlain : Pattern → Type 0
IsPlain (anywhere x) = Unit
IsPlain (at_end x) = (x ≢ []) × (ends_with x (b'%' ∷ []) ≡ false)
IsPlain (at_start x) = (x ≢ []) × (starts_with x (b'%' ∷ []) ≡ false)
IsPlain (whole x) = (ends_with x (b'%' ∷ []) ≡ false) × (starts_with x (b'%' ∷ []) ≡ false)

like_anywhere : (s x : Bytes) → like s (pattern_text (anywhere x)) ≡ some (contains s x)
unfolding like pattern_text
like_anywhere s x =
    let whole : Bytes = b'%' ∷ (x ++ b'%' ∷ []) in
    let one : starts_with whole (b'%' ∷ []) ≡ true =
      starts_with-append (b'%' ∷ []) (x ++ b'%' ∷ []) in
    let two : ends_with whole (b'%' ∷ []) ≡ true = ends_with-append (b'%' ∷ x) (b'%' ∷ []) in
    let size : length (x ++ b'%' ∷ []) ≡ length x + 1 = length-append x (b'%' ∷ []) in
    let cut : suc (length (x ++ b'%' ∷ [])) - 1 - 1 ≡ length x = omega arith in
    let room : ltb (suc (length (x ++ b'%' ∷ [])) - 1) 1 ≡ false = ground arith in
    rw (one, two, room, cut, take-append) refl

like_at_end :
    (s x : Bytes) → IsPlain (at_end x) → like s (pattern_text (at_end x)) ≡ some (ends_with s x)
unfolding like pattern_text
like_at_end s x (n, h) =
    rw (starts_with-append (b'%' ∷ []) x, ends_with_cons_false b'%' b'%' x n h) refl

like_at_start :
    (s x : Bytes)
    → IsPlain (at_start x)
    → like s (pattern_text (at_start x)) ≡ some (starts_with s x)
unfolding like pattern_text
like_at_start s x (n, h) =
    let size : length (x ++ b'%' ∷ []) ≡ length x + 1 = length-append x (b'%' ∷ []) in
    let cut : length (x ++ b'%' ∷ []) - 1 ≡ length x = omega arith in
    rw
      (
        starts_with_append_false b'%' x (b'%' ∷ []) n h,
        ends_with-append x (b'%' ∷ []),
        cut,
        take-append,
      )
      refl

like_whole : (s x : Bytes) → IsPlain (whole x) → like s (pattern_text (whole x)) ≡ some (str_eq s x)
unfolding like pattern_text
like_whole s x (e, b) = rw (b, e) refl

some-true {ℓ} :
    {P : Type ℓ} (b : Bool) (r : Option Bool) → r ≡ some b → (b ≡ true) ↔ P → (r ≡ some true) ↔ P
some-true b r e iff = (λ h. iff.0 (cc), λ p. cc (e, iff.1 p))

-- LIKE with a percent sign at both ends, at the left, at the right, or nowhere at the ends finds
-- exactly the texts that hold the rest of the pattern anywhere, at their end, at their start, or
-- are the pattern; the rest is not empty and has no percent sign at its other end. It is compared as it
-- is: a percent sign within it, or an underscore, stands for itself.
pub like-Matches :
    (p : Pattern) (s : Bytes) → IsPlain p → (like s (pattern_text p) ≡ some true) ↔ Matches p s
like-Matches (anywhere x) s h = some-true (contains s x) _ (like_anywhere s x) (contains_iff s x)
like-Matches (at_end x) s h = some-true (ends_with s x) _ (like_at_end s x h) (ends_with_iff s x)
like-Matches (at_start x) s h =
    some-true (starts_with s x) _ (like_at_start s x h) (starts_with_iff s x)
like-Matches (whole x) s h = some-true (str_eq s x) _ (like_whole s x h) (str_eq_iff s x)

panics : (s p : Bytes) → like s p ≡ none → p ≡ b'%' ∷ []
unfolding like starts_with
panics s [] h = ground arith
panics s (c ∷ []) h = ground arith
panics s (c ∷ d ∷ p) h = ground arith

one_percent : (s : Bytes) → like s (b'%' ∷ []) ≡ none
unfolding like starts_with ends_with
one_percent s = refl

-- LIKE panics exactly on the pattern that is one percent sign.
pub like_panics_iff : (s p : Bytes) → (like s p ≡ none) ↔ (p ≡ b'%' ∷ [])
like_panics_iff s p = (panics s p, λ e. rw e (one_percent s))
