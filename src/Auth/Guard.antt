-- ===== src/Auth/Guard.antt =====
-- The guard of protected routes and the check of `next` (internal/server/middleware/auth.go). A
-- request carries what the guard reads of it; `session` is the email of a session cookie that
-- validates, and `falcon_return` what ExtractFalconReturn gives.
pub mod Passes
use mock_salesforce.Base.{
  ℕ, Bool, true, false, not, ◌&&◌, ◌||◌, Option, none, some, List, [], ◌∷◌, ◌++◌, Bytes, codes,
  is_empty, str_eq, starts_with, contains, any, drop, Assoc, if◌then◌else◌,
}
use mock_salesforce.Auth.Tokens.{Tokens, TokenInfo, is_expired, lookup_token, lookup_token_raw}

pub record Request : Type 0 where
  pub path : Bytes
  pub raw_query : Bytes
  pub authorization : Bytes
  pub accept : Bytes
  pub session : Option Bytes
  pub falcon_return : Bytes

-- What the middleware does: it calls the next handler (with no user, with the session's user in
-- the context, or after setting a session cookie), or answers itself.
pub data Outcome : Type 0 where
  open_route : Outcome
  by_session : Bytes → Outcome
  by_bearer : Bytes → Outcome
  token_expired : Outcome
  to_login : Assoc Bytes → Outcome
  unauthorized : Outcome

abbrev public_paths : List Bytes
public_paths =
    codes "/services/oauth2/token"
    ∷ codes "/services/oauth2/revoke"
    ∷ codes "/services/oauth2/introspect"
    ∷ codes "/services/oauth2/userinfo"
    ∷ codes "/services/oauth2/authorize"
    ∷ codes "/.well-known/openid-configuration"
    ∷ codes "/health"
    ∷ codes "/"
    ∷ codes "/login"
    ∷ codes "/logout"
    ∷ codes "/favicon.ico"
    ∷ []

unfoldable pub is_open_path : Bytes → Bool
unfolding str_eq starts_with
is_open_path path =
    any (str_eq path) public_paths
    || starts_with path (codes "/admin/")
    || starts_with path (codes "/static/")

-- `isUIRoute`
unfoldable pub is_ui_route : Bytes → Bool
unfolding str_eq starts_with
is_ui_route path =
    str_eq path (codes "/home")
    || starts_with path (codes "/lightning/")
    || starts_with path (codes "/settings")
    || starts_with path (codes "/playground")

-- `isHTMLRequest`
unfoldable pub is_html_request : Request → Bool
unfolding starts_with is_empty contains is_ui_route
is_html_request r =
    if starts_with r.authorization (codes "Bearer ")
    then false
    else if starts_with r.path (codes "/services/") || starts_with r.path (codes "/admin/")
    then false
    else if not (
        is_empty r.accept
        || contains r.accept (codes "text/html")
        || contains r.accept (codes "*/*"))
    then false
    else is_ui_route r.path

-- The query parameters of the redirect to the login page.
unfoldable pub login_params : Request → Assoc Bytes
unfolding str_eq is_empty
login_params r =
    let next : Assoc Bytes =
      if not (is_empty r.path) && not (str_eq r.path (codes "/"))
      then (
        codes "next",
        if is_empty r.raw_query then r.path else r.path ++ codes "?" ++ r.raw_query,
      )
        ∷ []
      else [] in
    let back : Assoc Bytes =
      if is_empty r.falcon_return then [] else (codes "falcon_return", r.falcon_return) ∷ [] in
    next ++ back

-- The end of `Auth`: authentication failed.
unfoldable pub refuse : Request → Outcome
unfolding is_html_request login_params
refuse r = if is_html_request r then to_login (login_params r) else unauthorized

-- The test for the challenge of an expired access token, on what LookupTokenRaw gives.
unfoldable pub is_stale_access : ℕ → Option TokenInfo → Bool
unfolding is_expired str_eq
is_stale_access now none = false
is_stale_access now (some raw) =
    str_eq raw.kind (codes "access") && not raw.revoked && is_expired now raw

unfoldable pub or_bearer_user : Bytes → Bytes
unfolding is_empty
or_bearer_user username = if is_empty username then codes "bearer-user" else username

-- The entry is there and is not a refresh token.
unfoldable pub bearer_entry : Option TokenInfo → Option TokenInfo
unfolding str_eq
bearer_entry none = none
bearer_entry (some info) = if str_eq info.kind (codes "refresh") then none else some info

-- `Auth`
unfoldable pub guard : ℕ → Tokens → Request → Outcome
unfolding is_open_path starts_with lookup_token lookup_token_raw bearer_entry or_bearer_user
    is_stale_access refuse
guard now s r = if is_open_path r.path then open_route else elim r.session [
  | some email ↦ by_session email
  | none ↦
      if starts_with r.authorization (codes "Bearer ")
      then (let token = drop 7 r.authorization in
          elim (bearer_entry (lookup_token now token s)) [
            | some info ↦ by_bearer (or_bearer_user info.username)
            | none ↦
                if is_stale_access now (lookup_token_raw token s) then token_expired else refuse r
          ])
      else refuse r
]

-- `sanitizeNext`
unfoldable pub sanitize_next : Bytes → Bytes
unfolding is_empty starts_with
sanitize_next s =
    if is_empty s
    then []
    else if not (starts_with s (codes "/"))
    then []
    else if starts_with s (codes "//")
    then []
    else s
