-- ===== src/Auth/Endpoint/Introspect.antt =====
-- Token introspection (internal/handlers/oauth.go). `authorization` is that header.
use mock_salesforce.Base.{
  ℕ, Bool, true, false, not, ◌&&◌, none, some, [], ◌∷◌, ◌++◌, Bytes, codes, is_empty, str_eq,
  starts_with, drop, ◌==◌, if◌then◌else◌,
}
use mock_salesforce.Auth.Tokens.{Tokens, TokenInfo, lookup_token}
use mock_salesforce.Auth.Endpoint.Forms.{Config, Request, form_value}
use mock_salesforce.Auth.Endpoint.Clients.{
  conflicting, absent, supplied, extract_client_credentials,
}

-- The URLs of the configuration
pub record ServerUrls : Type 0 where
  pub base_url : Bytes
  pub instance_url : Bytes
  pub base_path : Bytes

pub record IntrospectResponse : Type 0 where
  pub scope : Bytes
  pub client_id : Bytes
  pub username : Bytes
  pub exp : ℕ
  pub iat : ℕ
  pub nbf : ℕ
  pub sub : Bytes
  pub aud : Bytes
  pub iss : Bytes
  pub token_type : Bytes

-- The reply: the bearer error, whose challenge has an error if a bearer token was presented, or a
-- response that is active or not.
pub data IntrospectReply : Type 0 where
  bearer_error : Bool → IntrospectReply
  inactive : IntrospectReply
  active : IntrospectResponse → IntrospectReply

-- `strings.TrimRight(s, "/")`
unfoldable pub trim_slashes : Bytes → Bytes
unfolding is_empty
trim_slashes [] = []
trim_slashes (c ∷ s) =
    let rest = trim_slashes s in if is_empty rest && (c == b'/') then [] else c ∷ rest

-- `instanceURL`
unfoldable pub instance_of : ServerUrls → Bytes
unfolding is_empty starts_with trim_slashes
instance_of u =
    let url =
      if starts_with u.instance_url (codes ":")
      then codes "http://localhost" ++ u.instance_url
      else u.instance_url in
    if not (is_empty u.base_url)
    then u.base_url
    else if not (is_empty u.base_path)
    then trim_slashes url ++ u.base_path
    else url

-- `bearerToken`
unfoldable pub bearer_token : Bytes → Bytes
unfolding starts_with
bearer_token authorization =
    if not (starts_with authorization (codes "Bearer ")) then [] else drop 7 authorization

-- The bearer token is not blank and is found.
unfoldable pub has_bearer : ℕ → Bytes → Tokens → Bool
unfolding is_empty lookup_token
has_bearer now token s =
    if is_empty token
    then false
    else elim (lookup_token now token s) [ none ↦ false | some _ ↦ true ]

-- `authenticateIntrospect`
unfoldable pub authenticate_introspect : Config → ℕ → Bytes → Request → Tokens → Bool
unfolding bearer_token has_bearer extract_client_credentials str_eq
authenticate_introspect c now authorization r s =
    if has_bearer now (bearer_token authorization) s
    then true
    else elim (extract_client_credentials r) [
      | conflicting ↦ false
      | absent ↦ false
      | supplied id secret ↦ str_eq id c.mock_client_id && str_eq secret c.mock_client_secret
    ]

-- The response on an entry that is found.
unfoldable pub introspected : Config → ServerUrls → TokenInfo → IntrospectResponse
unfolding instance_of
introspected c u info = record {
  scope = info.scope;
  client_id = info.client_id;
  username = info.username;
  exp = info.expires_at;
  iat = info.issued_at;
  nbf = info.issued_at;
  sub = info.user_id;
  aud = c.mock_client_id;
  iss = instance_of u;
  token_type = info.kind;
}

unfoldable pub introspect_token : Config → ServerUrls → ℕ → Bytes → Tokens → IntrospectReply
unfolding is_empty lookup_token introspected
introspect_token c u now token s =
    if is_empty token then inactive else elim (lookup_token now token s) [
      | none ↦ inactive
      | some info ↦ active (introspected c u info)
    ]

-- `HandleIntrospect`
unfoldable pub handle_introspect :
    Config → ServerUrls → ℕ → Bytes → Request → Tokens → IntrospectReply
unfolding authenticate_introspect form_value introspect_token starts_with
handle_introspect c u now authorization r s =
    if not (authenticate_introspect c now authorization r s)
    then bearer_error (starts_with authorization (codes "Bearer "))
    else introspect_token c u now (form_value r (codes "token")) s
