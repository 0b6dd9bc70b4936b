-- ===== src/Auth/Tests/Revoked.antt =====
-- Introspection after a revocation, at a concrete token.
use mock_salesforce.Base.{◌≡◌, ◌⊎◌, refl, false, none, [], ◌∷◌, codes, starts_with}
use mock_salesforce.Auth.Endpoint.{
  Request as TokenRequest, State, ServerUrls, inactive, bearer_error, handle_introspect,
  handle_revoke,
}
use mock_salesforce.Auth.Endpoint.Revoked.{handle_introspect-handle_revoke}
use mock_salesforce.Auth.Tests.{config, table}

abbrev revocation : TokenRequest
revocation = record {
  basic = none;
  post =
      (codes "client_id", codes "app")
      ∷ (codes "client_secret", codes "secret")
      ∷ (codes "token", codes "r2")
      ∷ [];
  query = [];
}

abbrev held : State
held = record { tokens = table; auth_codes = none }

abbrev server : ServerUrls
server = record { base_url = []; instance_url = codes ":8080"; base_path = [] }

handle_introspect-handle_revoke_example :
    (handle_introspect config server 20 [] revocation
        (handle_revoke config revocation held).1.tokens
      ≡ inactive)
    ⊎ (handle_introspect config server 20 [] revocation
          (handle_revoke config revocation held).1.tokens
        ≡ bearer_error false)
unfolding handle_revoke starts_with
handle_introspect-handle_revoke_example =
    handle_introspect-handle_revoke config server 20 [] revocation revocation held refl refl
