-- ===== src/Soql/Executor/Like/Wildcards.antt =====
-- LIKE against the wildcards of its comment: % stands for any text, and _ for one character, in lower-case
-- texts (internal/soql/executor.go).
use mock_salesforce.Base.{ℕ, not, ◌&&◌, ◌==◌, ◌≡◌, ◌≢◌, Bool, true, false, [], ◌∷◌, ◌++◌, Bytes}
use mock_salesforce.Soql.Executor.Like.{Pattern, anywhere, at_end, at_start, whole}

-- The text fits a first character, which is % or is _ or neither, and then fits the rest.
abbrev pub FitsFirst : Bool → Bool → ℕ → (Bytes → Type 0) → Bytes → Type 0
FitsFirst true _ c Rest s = (a : Bytes) × (b : Bytes) × (s ≡ a ++ b) × Rest b
FitsFirst false true c Rest s = (d : ℕ) × (b : Bytes) × (s ≡ d ∷ b) × Rest b
FitsFirst false false c Rest s = (b : Bytes) × (s ≡ c ∷ b) × Rest b

-- The text fits the pattern.
abbrev pub Fits : Bytes → Bytes → Type 0
Fits [] s = s ≡ []
Fits (c ∷ p) s = FitsFirst (c == b'%') (c == b'_') c (Fits p) s

-- The text has no wildcards.
abbrev pub is_literal : Bytes → Bool
is_literal [] = true
is_literal (c ∷ x) = not (c == b'%') && not (c == b'_') && is_literal x

-- Between its outer percent signs the pattern has no wildcards, and it is not one percent sign.
abbrev pub IsLiteral : Pattern → Type 0
IsLiteral (anywhere x) = is_literal x ≡ true
IsLiteral (at_end x) = (x ≢ []) × (is_literal x ≡ true)
IsLiteral (at_start x) = (x ≢ []) × (is_literal x ≡ true)
IsLiteral (whole x) = is_literal x ≡ true
