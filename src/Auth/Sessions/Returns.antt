-- ===== src/Auth/Sessions/Returns.antt =====
-- Return URLs (internal/server/middleware/falcon_return.go).
use mock_salesforce.Base.{
  Bool, true, false, not, ◌&&◌, ◌||◌, Option, none, some, List, [], ◌∷◌, Bytes, codes, is_empty,
  str_eq, starts_with, ends_with, drop, if◌then◌else◌,
}

-- Go's packages: the scheme and the host name of a text that `url.Parse` reads, the value of
-- FALCON_RETURN_ALLOWED_ORIGINS split at its commas, and `strings.TrimSpace`.
pub record Urls : Type 0 where
  pub parse : Bytes → Option (Bytes × Bytes)
  pub origins : List Bytes
  pub trim : Bytes → Bytes

abbrev pub default_allowed_patterns : List Bytes
default_allowed_patterns = codes "*.orb.local" ∷ codes "localhost" ∷ codes "127.0.0.1" ∷ []

-- The trimmed parts that are not empty.
unfoldable pub trimmed : (Bytes → Bytes) → List Bytes → List Bytes
unfolding is_empty
trimmed trim [] = []
trimmed trim (p ∷ ps) =
    let rest = trimmed trim ps in if is_empty (trim p) then rest else trim p ∷ rest

-- The variable is not set, or is empty.
abbrev is_unset : List Bytes → Bool
is_unset [] = true
is_unset (p ∷ []) = is_empty p
is_unset (p ∷ q ∷ ps) = false

-- `allowedPatterns`
unfoldable pub allowed_patterns : Urls → List Bytes
unfolding is_empty trimmed
allowed_patterns u =
    if is_unset u.origins then default_allowed_patterns else trimmed u.trim u.origins

unfoldable pub matches_pattern : Bytes → Bytes → Bool
unfolding starts_with ends_with str_eq
matches_pattern host pattern' =
    if starts_with pattern' (codes "*.")
    then ends_with host (drop 1 pattern')
    else str_eq host pattern'

-- The loop of `ValidateFalconReturn`
unfoldable pub is_allowed_host : Bytes → List Bytes → Bool
unfolding matches_pattern
is_allowed_host host [] = false
is_allowed_host host (p ∷ ps) = matches_pattern host p || is_allowed_host host ps

-- `ValidateFalconReturn`
unfoldable pub validate_falcon_return : Urls → Bytes → Bytes
unfolding is_empty str_eq allowed_patterns is_allowed_host
validate_falcon_return u raw = if is_empty raw then [] else elim (u.parse raw) [
  | none ↦ []
  | some (scheme, host) ↦
      if not (str_eq scheme (codes "http")) && not (str_eq scheme (codes "https"))
      then []
      else if is_allowed_host host (allowed_patterns u)
      then raw
      else []
]
