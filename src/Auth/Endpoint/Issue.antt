-- ===== src/Auth/Endpoint/Issue.antt =====
-- Tokens that are issued (internal/handlers/oauth.go). The clock in nanoseconds and the random
-- family identifier are arguments; a step of the table is `register_token_info` or `mark_revoked`.
use Prim.Native.Nat.{◌/◌}
use mock_salesforce.Base.{
  ℕ, ◌+◌, Bool, false, Option, none, some, [], ◌∷◌, ◌++◌, Bytes, codes, is_empty, upper, take, ◌==◌,
  if◌then◌else◌,
}
use mock_salesforce.Auth.Tokens.{Tokens, TokenInfo, register_token_info, mark_revoked}
use mock_salesforce.Auth.Endpoint.Forms.{Config, Crypto, Reply, granted, or_blank}

abbrev mock_org_id : Bytes
mock_org_id = codes "00Dxx0000001gPq"

abbrev pub scope_full : Bytes
scope_full = codes "api refresh_token"

abbrev pub unix : ℕ → ℕ
unix now = now / 1000000000

-- `userIDFromUsername`
unfoldable pub user_id_from_username : Crypto → Bytes → Bytes
unfolding upper
user_id_from_username y username = codes "005" ++ take 15 (upper (y.name_digest username))

-- `identityURL`
unfoldable pub identity_url : Crypto → Bytes → Bytes
unfolding is_empty user_id_from_username
identity_url y username =
    let user =
      if is_empty username then codes "005xx000001SwiUAAS" else user_id_from_username y username in
    codes "https://login.salesforce.com/id/" ++ mock_org_id ++ codes "/" ++ user

-- What follows the last slash, if there is one.
unfoldable pub last_segment : Bytes → Option Bytes
last_segment [] = none
last_segment (c ∷ s) = elim (last_segment s) [
  | some r ↦ some r
  | none ↦ if c == b'/' then some s else none
]

-- `userIDFromIdentity`
unfoldable pub user_id_from_identity : Bytes → Bytes
unfolding last_segment
user_id_from_identity url = or_blank (last_segment url)

-- `generateToken`
unfoldable pub generate_token : Crypto → Bytes → Bytes → ℕ → Bytes
generate_token y kind username now =
    mock_org_id
    ++ codes "!"
    ++ y.short_digest (kind ++ codes ":" ++ username ++ codes ":" ++ y.decimal now)

-- `issueTokens`: the two registrations, and the reply.
unfoldable pub issue_tokens : Config → Crypto → ℕ → Bytes → Bytes → Bool → Tokens → Reply × Tokens
unfolding identity_url user_id_from_identity generate_token register_token_info
issue_tokens c y now random username with_refresh s =
    let access = generate_token y (codes "access") username now in
    let refresh = if with_refresh then generate_token y (codes "refresh") username now else [] in
    let family = if with_refresh then random else [] in
    let s' : Tokens =
      if with_refresh
      then register_token_info
          record {
            token = refresh;
            kind = codes "refresh";
            username = username;
            user_id = user_id_from_identity (identity_url y username);
            client_id = c.mock_client_id;
            scope = scope_full;
            issued_at = unix now;
            expires_at = 0;
            refresh = [];
            family = family;
            revoked = false;
          }
          s
      else s in
    (
      granted access refresh,
      register_token_info
          record {
            token = access;
            kind = codes "access";
            username = username;
            user_id = user_id_from_identity (identity_url y username);
            client_id = c.mock_client_id;
            scope = scope_full;
            issued_at = unix now;
            expires_at = unix now + 7200;
            refresh = refresh;
            family = family;
            revoked = false;
          }
          s',
    )

-- The rotation in `issueRefreshedAccess`: the new refresh token is registered, the old one marked.
unfoldable pub rotate_refresh : Crypto → ℕ → TokenInfo → Tokens → Bytes × Tokens
unfolding generate_token register_token_info mark_revoked
rotate_refresh y now old s =
    let token = generate_token y (codes "refresh") old.username now in
    (
      token,
      (mark_revoked old.token (
          register_token_info
            record {
              token = token;
              kind = codes "refresh";
              username = old.username;
              user_id = old.user_id;
              client_id = old.client_id;
              scope = old.scope;
              issued_at = unix now;
              expires_at = 0;
              refresh = [];
              family = old.family;
              revoked = false;
            }
            s)).1,
    )

-- The access token that comes with a refresh token.
unfoldable pub refreshed_access : Crypto → ℕ → TokenInfo → Bytes → TokenInfo
unfolding generate_token
refreshed_access y now old refresh = record {
  token = generate_token y (codes "access") old.username now;
  kind = codes "access";
  username = old.username;
  user_id = old.user_id;
  client_id = old.client_id;
  scope = old.scope;
  issued_at = unix now;
  expires_at = unix now + 7200;
  refresh = refresh;
  family = old.family;
  revoked = false;
}

-- `issueRefreshedAccess`
unfoldable pub issue_refreshed_access : Config → Crypto → ℕ → TokenInfo → Tokens → Reply × Tokens
unfolding rotate_refresh refreshed_access register_token_info
issue_refreshed_access c y now old s =
    let rotated : Bytes × Tokens =
      if c.mock_refresh_rotation then rotate_refresh y now old s else (old.token, s) in
    let access = refreshed_access y now old rotated.0 in
    (granted access.token rotated.0, register_token_info access rotated.1)
