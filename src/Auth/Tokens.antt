-- ===== src/Auth/Tokens.antt =====
-- The token table (internal/server/middleware/auth.go). Each function holds the lock for its whole
-- body, so it is one step on the table; the clock in unix seconds is an argument.
pub mod Family
use mock_salesforce.Base.{
  ℕ, ◌+◌, Bool, true, false, not, ◌&&◌, Option, none, some, List, [], ◌∷◌, Bytes, codes, is_empty,
  str_eq, Assoc, lookup, insert, erase, map_values, ltb, leb, if◌then◌else◌,
}

pub record TokenInfo : Type 0 where
  pub token : Bytes
  pub kind : Bytes
  pub username : Bytes
  pub user_id : Bytes
  pub client_id : Bytes
  pub scope : Bytes
  pub issued_at : ℕ
  -- 0 is no expiry
  pub expires_at : ℕ
  pub refresh : Bytes
  pub family : Bytes
  pub revoked : Bool

abbrev pub Tokens : Type 0
Tokens = Assoc TokenInfo

unfoldable pub bare_token : Bytes → TokenInfo
bare_token token = record {
  token = token;
  kind = codes "access";
  username = [];
  user_id = [];
  client_id = [];
  scope = [];
  issued_at = 0;
  expires_at = 0;
  refresh = [];
  family = [];
  revoked = false;
}

-- `mockTokens`, and `ResetTokenStore`
unfoldable pub initial_tokens : Tokens
unfolding bare_token
initial_tokens = (codes "mock-access-token", bare_token (codes "mock-access-token")) ∷ []

unfoldable pub register_token : Bytes → Tokens → Tokens
unfolding bare_token insert
register_token token s = insert token (bare_token token) s

unfoldable pub register_token_info : TokenInfo → Tokens → Tokens
unfolding insert is_empty
register_token_info info s = if is_empty info.token then s else insert info.token info s

-- The entry is expired: `info.ExpiresAt > 0 && now >= info.ExpiresAt`.
unfoldable pub is_expired : ℕ → TokenInfo → Bool
is_expired now info = ltb 0 info.expires_at && leb info.expires_at now

-- The guards of `LookupToken` on the entry that it finds.
unfoldable pub if_valid : ℕ → Option TokenInfo → Option TokenInfo
unfolding is_expired
if_valid now none = none
if_valid now (some info) =
    if info.revoked then none else if is_expired now info then none else some info

unfoldable pub lookup_token : ℕ → Bytes → Tokens → Option TokenInfo
unfolding lookup if_valid
lookup_token now token s = if_valid now (lookup token s)

unfoldable pub lookup_token_raw : Bytes → Tokens → Option TokenInfo
unfolding lookup
lookup_token_raw token s = lookup token s

-- `RevokeToken`: whether the token was there, and the table without it.
unfoldable pub revoke_token : Bytes → Tokens → Bool × Tokens
unfolding lookup erase
revoke_token token s = elim (lookup token s) [ none ↦ (false, s) | some _ ↦ (true, erase token s) ]

unfoldable pub mark_revoked : Bytes → Tokens → Bool × Tokens
unfolding lookup insert
mark_revoked token s = elim (lookup token s) [
  | none ↦ (false, s)
  | some info ↦ (true, insert token (record info { revoked = true }) s)
]

-- The entry that the loop of `RevokeFamily` marks, and what it leaves of any entry.
unfoldable pub is_live_member : Bytes → TokenInfo → Bool
unfolding str_eq
is_live_member family info = str_eq info.family family && not info.revoked

unfoldable pub revoke_member : Bytes → TokenInfo → TokenInfo
unfolding is_live_member
revoke_member family info =
    if is_live_member family info then record info { revoked = true } else info

unfoldable pub count_live : Bytes → Tokens → ℕ
unfolding is_live_member
count_live family [] = 0
count_live family ((k, info) ∷ s) =
    let n = count_live family s in if is_live_member family info then n + 1 else n

-- `RevokeFamily`: how many entries it marks, and the table with them marked.
unfoldable pub revoke_family : Bytes → Tokens → ℕ × Tokens
unfolding is_empty map_values revoke_member count_live
revoke_family family s =
    if is_empty family then (0, s) else (count_live family s, map_values (revoke_member family) s)
