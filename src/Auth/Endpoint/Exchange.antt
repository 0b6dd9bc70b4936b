-- ===== src/Auth/Endpoint/Exchange.antt =====
-- The exchange of codes and of replayed refresh tokens (internal/handlers/oauth.go).
use mock_salesforce.Base.{
  ℕ, ◌≡◌, ◌≢◌, refl, sym, subst, ◌∙◌, ◌⊎◌, inl, inr, Bool, true, false, Option, none, some, Bytes,
  codes, is_empty, str_eq, str_eq_iff, Bool-cases, Option-cases, arith,
}
use mock_salesforce.Auth.Tokens.{
  Tokens, TokenInfo, lookup_token, lookup_token_raw, if_valid, revoke_family,
}
use mock_salesforce.Auth.Tokens.Family.{lookup_token-revoke_family, outside}
use mock_salesforce.Auth.Codes.{AuthCode, Codes, consume}
use mock_salesforce.Auth.Endpoint.Forms.{
  Config, Crypto, Request, Reply, failed, granted, done, State, post_value, is_redirect_uri_allowed,
}
use mock_salesforce.Auth.Endpoint.Clients.{verify_pkce, validate_client}
use mock_salesforce.Auth.Endpoint.Issue.{issue_tokens}
use mock_salesforce.Auth.Endpoint.Grants.{
  invalid_grant, invalid_request, handle_code_grant, check_code, exchange_code, exchange_refresh,
  refresh_entry, after_replay,
}

issued_granted :
    (c : Config) (y : Crypto) (now : ℕ) (random username : Bytes) (b : Bool) (s : Tokens)
    → (issue_tokens c y now random username b s).0 ≢ invalid_grant
unfolding issue_tokens
issued_granted c y now random username b s = ground arith

-- A replayed refresh token: its entry is kept, marked as revoked.
abbrev pub IsReplay : Bytes → TokenInfo → Tokens → Type 0
IsReplay refresh raw s =
    (lookup_token_raw refresh s ≡ some raw)
    × (str_eq raw.kind (codes "refresh") ≡ true)
    × (raw.revoked ≡ true)

replayed :
    (c : Config) (y : Crypto) (now : ℕ) (refresh : Bytes) (s : Tokens) (raw : TokenInfo)
    → IsReplay refresh raw s
    → exchange_refresh c y now refresh s ≡ (invalid_grant, (revoke_family raw.family s).1)
unfolding exchange_refresh refresh_entry after_replay lookup_token_raw lookup_token if_valid
replayed c y now refresh s raw (e, k, v) = rw (e, exchange_refresh, v, after_replay, e, k, v) refl

outside_family :
    (family : Bytes) (o : Option TokenInfo) (info : TokenInfo)
    → outside family o ≡ some info
    → str_eq info.family family ≡ false
outside_family family none info h = ground arith
outside_family family (some old) info h = ground arith

-- The exchange of a refresh token that was rotated before is refused, and afterwards LookupToken
-- gives no token of its family at any time, if the family is not empty.
pub exchange_refresh-IsReplay :
    (c : Config) (y : Crypto) (now : ℕ) (refresh : Bytes) (s : Tokens) (raw : TokenInfo)
    → IsReplay refresh raw s
    → is_empty raw.family ≡ false
    → ((exchange_refresh c y now refresh s).0 ≡ invalid_grant)
      × ((later : ℕ) (token : Bytes) (info : TokenInfo)
          → lookup_token later token (exchange_refresh c y now refresh s).1 ≡ some info
          → str_eq info.family raw.family ≡ false)
exchange_refresh-IsReplay c y now refresh s raw r f = rw (replayed c y now refresh s raw r) (
  refl,
  λ later token info h.
      outside_family raw.family (lookup_token later token s) info
        (sym (lookup_token-revoke_family raw.family s later token f) ∙ h),
)

-- What the exchange of a code has established when it issues tokens.
abbrev IsExchanged : Config → Crypto → ℕ → Request → Bytes → Bytes → Codes → AuthCode → Type 0
IsExchanged c y now r client code codes' ac =
    ((consume now code codes').0 ≡ some ac)
    × (ac.client_id ≡ client)
    × (ac.redirect_uri ≡ post_value r (codes "redirect_uri"))
    × (is_redirect_uri_allowed c ac.redirect_uri ≡ true)
    × (verify_pkce y (post_value r (codes "code_verifier")) ac.code_challenge
          ac.code_challenge_method
        ≡ true)

checked :
    (c : Config) (y : Crypto) (r : Request) (client : Bytes) (ac : AuthCode)
    → check_code c y r client ac ≡ true
    → (ac.client_id ≡ client)
      × (ac.redirect_uri ≡ post_value r (codes "redirect_uri"))
      × (is_redirect_uri_allowed c ac.redirect_uri ≡ true)
      × (verify_pkce y
            (post_value r (codes "code_verifier"))
            ac.code_challenge
            ac.code_challenge_method
          ≡ true)
unfolding check_code
checked c y r client ac h =
    let a = str_eq_iff ac.client_id client in
    let b = str_eq_iff ac.redirect_uri (post_value r (codes "redirect_uri")) in ground arith

exchange_cases :
    (c : Config) (y : Crypto) (now : ℕ) (random : Bytes) (r : Request) (client code : Bytes)
    (codes' : Codes) (s : Tokens)
    → (exchange_code c y now random r client code codes' s
        ≡ (invalid_grant, (consume now code codes').1, s))
      ⊎ ((ac : AuthCode) × IsExchanged c y now r client code codes' ac
          × (exchange_code c y now random r client code codes' s ≡ (
            (issue_tokens c y now random ac.username true s).0,
            (consume now code codes').1,
            (issue_tokens c y now random ac.username true s).1,
          )))
unfolding exchange_code
exchange_cases c y now random r client code codes' s =
    elim (Option-cases (consume now code codes').0) [
      | inl n ↦ inl (rw (n, exchange_code) refl)
      | inr (ac, e) ↦ elim (Bool-cases (check_code c y r client ac)) [
        | inl h ↦ inr (
          ac,
          (let (a, b, u, p) = checked c y r client ac h in (e, a, b, u, p)),
          rw (e, exchange_code, h) refl,
        )
        | inr h ↦ inl (rw (e, exchange_code, h) refl)
      ]
    ]

-- The code that the request sends is exchanged, and spent in the store that is left.
abbrev IsCodeGrant : Config → Crypto → ℕ → Request → Bytes → Bytes → State → State → Type 0
IsCodeGrant c y now r client secret s s' =
    (client ≡ c.mock_client_id)
    × (secret ≡ c.mock_client_secret)
    × ((before : Codes) × (s.auth_codes ≡ some before)
        × (s'.auth_codes ≡ some (consume now (post_value r (codes "code")) before).1)
        × ((ac : AuthCode) × IsExchanged c y now r client (post_value r (codes "code")) before ac))

validated :
    (c : Config) (client secret : Bytes)
    → ((client ≡ c.mock_client_id)
        × (secret ≡ c.mock_client_secret)
        × (validate_client c client secret ≡ none))
      ⊎ ((code : Bytes) × (validate_client c client secret ≡ some (failed 400 code)))
unfolding validate_client
validated c client secret =
    let a = str_eq_iff client c.mock_client_id in
    let b = str_eq_iff secret c.mock_client_secret in
    elim (Bool-cases (str_eq client c.mock_client_id)) [
      | inr e ↦ inr (codes "invalid_client_id", rw e refl)
      | inl e ↦ elim (Bool-cases (str_eq secret c.mock_client_secret)) [
        | inr f ↦ inr (codes "invalid_client", rw (e, f) refl)
        | inl f ↦ inl (a.0 e, b.0 f, rw (e, f) refl)
      ]
    ]

-- An error leaves the tokens as they are; tokens are issued for an exchanged code only.
abbrev pub IsCodeReply :
    Config → Crypto → ℕ → Request → Bytes → Bytes → State → Reply × State → Type 0
IsCodeReply c y now r client secret s (failed status code, s') = s'.tokens ≡ s.tokens
IsCodeReply c y now r client secret s (granted access refresh, s') =
    IsCodeGrant c y now r client secret s s'
IsCodeReply c y now r client secret s (done, s') = ⊥

module _ (c : Config) (y : Crypto) (now : ℕ) (random : Bytes) (r : Request) (client secret : Bytes)
    (s : State) where
  by_reply :
      (o : Reply × State)
      → handle_code_grant c y now random r client secret s ≡ o
      → IsCodeReply c y now r client secret s o
      → IsCodeReply c y now r client secret s (handle_code_grant c y now random r client secret s)
  by_reply o e h = subst (IsCodeReply c y now r client secret s) (sym e) h

  -- The state with the code tried, and the tokens issued for an entry.
  abbrev spent : Codes → Tokens → State
  spent before tokens = record {
    tokens = tokens;
    auth_codes = some (consume now (post_value r (codes "code")) before).1;
  }

  abbrev issued : AuthCode → Reply × Tokens
  issued ac = issue_tokens c y now random ac.username true s.tokens

  validated_reply :
      client ≡ c.mock_client_id
      → secret ≡ c.mock_client_secret
      → validate_client c client secret ≡ none
      → IsCodeReply c y now r client secret s (handle_code_grant c y now random r client secret s)
  unfolding handle_code_grant issue_tokens
  validated_reply i j v = elim (Option-cases s.auth_codes) [
    | inl n ↦
        by_reply (invalid_grant, s)
          (rw (v, handle_code_grant, n) (λ i. (invalid_grant, record s { auth_codes = n i }))) refl
    | inr (before, e) ↦ elim (Bool-cases (is_empty (post_value r (codes "code")))) [
      | inl b ↦
          by_reply (invalid_request, s)
            (rw (v, handle_code_grant, e, b)
              (λ i. (invalid_request, record s { auth_codes = e i })))
            refl
      | inr b ↦
          elim (exchange_cases c y now random r client (post_value r (codes "code")) before
            s.tokens) [
              | inl f ↦
                  by_reply (invalid_grant, spent before s.tokens)
                    (rw (v, handle_code_grant, e, b, f) refl) refl
              | inr (ac, x, f) ↦
                  by_reply ((issued ac).0, spent before (issued ac).1)
                    (rw (v, handle_code_grant, e, b, f) refl) (i, j, (before, e, refl, (ac, x)))
            ]
    ]
  ]

  -- The authorization_code grant issues tokens only to the configured client with its secret, for a
  -- code that `Consume` gave out just then, bound to this client and redirect URI, which is allowed,
  -- with a verifier that passes PKCE; the code is spent in the store left. An error issues no token.
  pub handle_code_grant-IsCodeReply :
      IsCodeReply c y now r client secret s (handle_code_grant c y now random r client secret s)
  unfolding handle_code_grant
  handle_code_grant-IsCodeReply = elim (validated c client secret) [
    | inl (i, j, v) ↦ validated_reply i j v
    | inr (reply, v) ↦ by_reply (failed 400 reply, s) (rw (v, handle_code_grant) refl) refl
  ]
