-- ===== src/Auth/Endpoint/Grants.antt =====
-- The grants and the revocation endpoint (internal/handlers/oauth.go). The per-token lock of a
-- refresh exchange makes its reads and writes one step.
use mock_salesforce.Base.{
  ℕ, Bool, true, false, ◌&&◌, Option, none, some, [], Bytes, codes, is_empty, str_eq, if◌then◌else◌,
}
use mock_salesforce.Auth.Tokens.{
  Tokens, TokenInfo, lookup_token, lookup_token_raw, revoke_token, revoke_family,
}
use mock_salesforce.Auth.Codes.{AuthCode, Codes, consume}
use mock_salesforce.Auth.Endpoint.Forms.{
  Config, Crypto, Request, post_value, form_value, query_value, Reply, failed, done, State,
  is_redirect_uri_allowed,
}
use mock_salesforce.Auth.Endpoint.Clients.{
  conflicting, absent, supplied, extract_client_credentials, validate_client, require_client_auth,
  validate_user, verify_pkce,
}
use mock_salesforce.Auth.Endpoint.Issue.{unix, issue_tokens, issue_refreshed_access}

abbrev pub invalid_grant : Reply
invalid_grant = failed 400 (codes "invalid_grant")

abbrev pub invalid_request : Reply
invalid_request = failed 400 (codes "invalid_request")

-- The reply of an error, or what comes after the check.
abbrev pub unless_failed : Option Reply → State → Reply × State → Reply × State
unless_failed none s rest = rest
unless_failed (some reply) s rest = (reply, s)

abbrev pub with_tokens : State → Reply × Tokens → Reply × State
with_tokens s r = (r.0, record s { tokens = r.1 })

-- `info != nil && info.Type == "refresh"`
unfoldable pub refresh_entry : Option TokenInfo → Option TokenInfo
unfolding str_eq
refresh_entry none = none
refresh_entry (some info) = if str_eq info.kind (codes "refresh") then some info else none

-- The table after a refresh exchange is refused: the family of a replayed token is revoked.
unfoldable pub after_replay : Bytes → Tokens → Tokens
unfolding lookup_token_raw refresh_entry revoke_family
after_replay refresh s = elim (refresh_entry (lookup_token_raw refresh s)) [
  | none ↦ s
  | some raw ↦ if raw.revoked then (revoke_family raw.family s).1 else s
]

-- The exchange of a refresh token, after the client is validated.
unfoldable pub exchange_refresh : Config → Crypto → ℕ → Bytes → Tokens → Reply × Tokens
unfolding lookup_token refresh_entry issue_refreshed_access after_replay
exchange_refresh c y now refresh s = elim (refresh_entry (lookup_token (unix now) refresh s)) [
  | some info ↦ issue_refreshed_access c y now info s
  | none ↦ (invalid_grant, after_replay refresh s)
]

-- The checks of the code's entry that follow `Consume`.
unfoldable pub check_code : Config → Crypto → Request → Bytes → AuthCode → Bool
unfolding str_eq post_value is_redirect_uri_allowed verify_pkce
check_code c y r client ac =
    str_eq ac.client_id client
    && str_eq ac.redirect_uri (post_value r (codes "redirect_uri"))
    && is_redirect_uri_allowed c ac.redirect_uri
    && verify_pkce y (post_value r (codes "code_verifier")) ac.code_challenge
        ac.code_challenge_method

-- The exchange of a code, after the client is validated: every failed check replies invalid_grant.
unfoldable pub exchange_code :
    Config → Crypto → ℕ → Bytes → Request → Bytes → Bytes → Codes → Tokens → Reply × Codes × Tokens
unfolding consume check_code issue_tokens
exchange_code c y now random r client code codes' s =
    let consumed = consume now code codes' in
    elim consumed.0 [
      | none ↦ (invalid_grant, consumed.1, s)
      | some ac ↦
          if check_code c y r client ac
          then (let issued = issue_tokens c y now random ac.username true s in
              (issued.0, consumed.1, issued.1))
          else (invalid_grant, consumed.1, s)
    ]

unfoldable pub handle_code_grant :
    Config → Crypto → ℕ → Bytes → Request → Bytes → Bytes → State → Reply × State
unfolding validate_client post_value is_empty exchange_code
handle_code_grant c y now random r client secret s =
    unless_failed (validate_client c client secret) s (elim s.auth_codes [
      | none ↦ (invalid_grant, s)
      | some codes' ↦
          let code = post_value r (codes "code") in
          if is_empty code
          then (invalid_request, s)
          else (let result = exchange_code c y now random r client code codes' s.tokens in
              (result.0, record { tokens = result.2; auth_codes = some result.1 }))
    ])

unfoldable pub handle_refresh_grant :
    Config → Crypto → ℕ → Request → Bytes → Bytes → State → Reply × State
unfolding validate_client form_value exchange_refresh
handle_refresh_grant c y now r client secret s =
    unless_failed (validate_client c client secret) s
      (with_tokens s (exchange_refresh c y now (form_value r (codes "refresh_token")) s.tokens))

unfoldable pub handle_password_grant :
    Config → Crypto → ℕ → Bytes → Request → Bytes → Bytes → State → Reply × State
unfolding validate_client form_value validate_user issue_tokens
handle_password_grant c y now random r client secret s =
    let username = form_value r (codes "username") in
    unless_failed (validate_client c client secret) s (
      if validate_user c username (form_value r (codes "password"))
      then with_tokens s (issue_tokens c y now random username true s.tokens)
      else (invalid_grant, s))

unfoldable pub handle_client_credentials_grant :
    Config → Crypto → ℕ → Bytes → Bytes → State → Reply × State
unfolding validate_client issue_tokens
handle_client_credentials_grant c y now client secret s =
    unless_failed (validate_client c client secret) s
      (with_tokens s (issue_tokens c y now [] [] false s.tokens))

-- The switch of `HandleToken` on the grant type.
unfoldable pub dispatch_grant :
    Config → Crypto → ℕ → Bytes → Request → Bytes → Bytes → State → Reply × State
unfolding str_eq post_value handle_password_grant handle_refresh_grant
    handle_client_credentials_grant handle_code_grant
dispatch_grant c y now random r client secret s =
    let grant_type = post_value r (codes "grant_type") in
    if str_eq grant_type (codes "password")
    then handle_password_grant c y now random r client secret s
    else if str_eq grant_type (codes "refresh_token")
    then handle_refresh_grant c y now r client secret s
    else if str_eq grant_type (codes "client_credentials")
    then handle_client_credentials_grant c y now client secret s
    else if str_eq grant_type (codes "authorization_code")
    then handle_code_grant c y now random r client secret s
    else (failed 400 (codes "unsupported_grant_type"), s)

-- `HandleToken`; the client is blank where no credentials are supplied.
unfoldable pub handle_token : Config → Crypto → ℕ → Bytes → Request → State → Reply × State
unfolding extract_client_credentials dispatch_grant
handle_token c y now random r s = elim (extract_client_credentials r) [
  | conflicting ↦ (invalid_request, s)
  | absent ↦ dispatch_grant c y now random r [] [] s
  | supplied client secret ↦ dispatch_grant c y now random r client secret s
]

-- `HandleRevoke`
unfoldable pub handle_revoke : Config → Request → State → Reply × State
unfolding require_client_auth form_value query_value is_empty revoke_token
handle_revoke c r s =
    let posted = form_value r (codes "token") in
    let token = if is_empty posted then query_value r (codes "token") else posted in
    unless_failed (require_client_auth c r) s (
      if is_empty token
      then (invalid_request, s)
      else (done, record s { tokens = (revoke_token token s.tokens).1 }))
