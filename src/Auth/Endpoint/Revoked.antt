-- ===== src/Auth/Endpoint/Revoked.antt =====
-- Introspection after revocation (internal/handlers/oauth.go).
use mock_salesforce.Base.{
  ℕ, ◌≡◌, ◌⊎◌, refl, ap, ◌∙◌, inl, inr, none, some, Bytes, str_eq, ◌&&◌, if◌then◌else◌, codes,
  is_empty, starts_with, arith, Bool-cases,
}
use mock_salesforce.Auth.Tokens.{Tokens, revoke_token}
use mock_salesforce.Auth.Tokens.Family.{lookup_token-revoke_token}
use mock_salesforce.Auth.Endpoint.Forms.{
  Config, Request, done, failed, State, form_value, query_value,
}
use mock_salesforce.Auth.Endpoint.Clients.{
  require_client_auth, extract_client_credentials, Credentials, conflicting, absent, supplied,
}
use mock_salesforce.Auth.Endpoint.Grants.{handle_revoke, invalid_request}
use mock_salesforce.Auth.Endpoint.Introspect.{
  ServerUrls, inactive, bearer_error, authenticate_introspect, introspect_token, handle_introspect,
}

-- The token that a revocation names, in the form or in the query.
abbrev pub named_token : Request → Bytes
named_token r =
    let posted = form_value r (codes "token") in
    if is_empty posted then query_value r (codes "token") else posted

Credentials-cases :
    (d : Credentials)
    → (d ≡ conflicting)
      ⊎ (d ≡ absent)
      ⊎ ((id : Bytes) × (secret : Bytes) × (d ≡ supplied id secret))
Credentials-cases conflicting = inl refl
Credentials-cases absent = inr (inl refl)
Credentials-cases (supplied id secret) = inr (inr (id, secret, refl))

require_client_auth_cases :
    (c : Config) (r : Request)
    → (require_client_auth c r ≡ none)
      ⊎ ((status : ℕ) × (error : Bytes) × (require_client_auth c r ≡ some (failed status error)))
unfolding require_client_auth
require_client_auth_cases c r = elim (Credentials-cases (extract_client_credentials r)) [
  | inl e ↦ inr (400, codes "invalid_request", rw (require_client_auth, e) refl)
  | inr (inl e) ↦ inr (401, codes "invalid_client", rw (require_client_auth, e) refl)
  | inr (inr (id, secret, e)) ↦
      elim (Bool-cases (str_eq id c.mock_client_id && str_eq secret c.mock_client_secret)) [
        | inl b ↦ inl (rw (require_client_auth, e, b) refl)
        | inr b ↦ inr (401, codes "invalid_client", rw (require_client_auth, e, b) refl)
      ]
]

revoked_tokens :
    (c : Config) (r : Request) (s : State)
    → (handle_revoke c r s).0 ≡ done
    → (handle_revoke c r s).1.tokens ≡ (revoke_token (named_token r) s.tokens).1
unfolding handle_revoke
revoked_tokens c r s h = elim (require_client_auth_cases c r) [
  | inr (status, error, e) ↦ let q : failed status error ≡ done = rw (handle_revoke, e) at h in cc
  | inl e ↦ elim (Bool-cases (is_empty (named_token r))) [
    | inl b ↦ let q : invalid_request ≡ done = rw (handle_revoke, e, b) at h in cc
    | inr b ↦ rw (handle_revoke, e, b) refl
  ]
]

introspect_token-revoke_token :
    (c : Config) (u : ServerUrls) (later : ℕ) (token : Bytes) (s : Tokens)
    → introspect_token c u later token (revoke_token token s).1 ≡ inactive
unfolding introspect_token
introspect_token-revoke_token c u later token s =
    rw (introspect_token, lookup_token-revoke_token later token s) (ground arith)

handle_introspect_cases :
    (c : Config) (u : ServerUrls) (later : ℕ) (authorization : Bytes) (q : Request) (s : Tokens)
    → (handle_introspect c u later authorization q s
        ≡ introspect_token c u later (form_value q (codes "token")) s)
      ⊎ (handle_introspect c u later authorization q s
          ≡ bearer_error (starts_with authorization (codes "Bearer ")))
unfolding handle_introspect
handle_introspect_cases c u later authorization q s =
    elim (Bool-cases (authenticate_introspect c later authorization q s)) [
      | inl a ↦ inl (rw a refl)
      | inr a ↦ inr (rw a refl)
    ]

introspect_gone :
    (c : Config) (u : ServerUrls) (later : ℕ) (authorization token : Bytes) (q : Request)
    (s : Tokens)
    → form_value q (codes "token") ≡ token
    → (handle_introspect c u later authorization q (revoke_token token s).1 ≡ inactive)
      ⊎ (handle_introspect c u later authorization q (revoke_token token s).1
          ≡ bearer_error (starts_with authorization (codes "Bearer ")))
introspect_gone c u later authorization token q s e =
    elim (handle_introspect_cases c u later authorization q (revoke_token token s).1) [
      | inl h ↦ inl (
          h
          ∙ ap (λ t. introspect_token c u later t (revoke_token token s).1) e
          ∙ introspect_token-revoke_token c u later token s)
      | inr h ↦ inr h
    ]

-- After a revocation that succeeds, introspection of the token that it named, at any time and whoever
-- asks, gives either an inactive token or the bearer error.
pub handle_introspect-handle_revoke :
    (c : Config) (u : ServerUrls) (later : ℕ) (authorization : Bytes) (r q : Request) (s : State)
    → (handle_revoke c r s).0 ≡ done
    → form_value q (codes "token") ≡ named_token r
    → (handle_introspect c u later authorization q (handle_revoke c r s).1.tokens ≡ inactive)
      ⊎ (handle_introspect c u later authorization q (handle_revoke c r s).1.tokens
          ≡ bearer_error (starts_with authorization (codes "Bearer ")))
unfolding handle_introspect
handle_introspect-handle_revoke c u later authorization r q s h e =
    rw (revoked_tokens c r s h)
      (introspect_gone c u later authorization (named_token r) q s.tokens e)
