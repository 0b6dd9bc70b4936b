-- ===== src/Auth/Tests/Authorized.antt =====
-- The laws of the authorization endpoint at a concrete request.
use mock_salesforce.Base.{
  ◌≡◌, ◌⊎◌, refl, Bool, true, some, [], ◌∷◌, Bytes, codes, is_empty, str_eq, lookup, arith,
}
use mock_salesforce.Auth.Endpoint.{
  handle_code_grant, issue_tokens, is_redirect_uri_allowed, or_blank, post_value,
}
use mock_salesforce.Auth.Authorize.{
  AuthorizeRequest, parse_authorize_params, get_param, redirect_success, handle_post,
}
use mock_salesforce.Auth.Authorize.Issued.{IsAllowed, issued_code, handle_post-IsAllowed}
use mock_salesforce.Auth.Authorize.Exchanged.{handle_code_grant-issued_code}
use mock_salesforce.Auth.Tests.{config, crypto, table, exchange_form}

abbrev consented : AuthorizeRequest
consented = record {
  is_post = true;
  is_form = true;
  path = codes "/services/oauth2/authorize";
  raw_query = [];
  post =
      (codes "response_type", codes "code")
      ∷ (codes "client_id", codes "app")
      ∷ (codes "redirect_uri", codes "http://x/cb")
      ∷ (codes "code_challenge", codes "pkce")
      ∷ (codes "code_challenge_method", codes "S256")
      ∷ (codes "action", codes "allow")
      ∷ [];
  query = [];
  session = some (codes "ann");
}

abbrev absolute : Bytes → Bool
absolute uri = true

handle_post-IsAllowed_example :
    ((handle_post config absolute (codes "c1") 5 consented []).1 ≡ [])
    ⊎ ((user : Bytes) × IsAllowed config absolute consented (parse_authorize_params consented) user
        × (or_blank (lookup (codes "action") consented.post) ≡ codes "allow")
        × (handle_post config absolute (codes "c1") 5 consented [] ≡ (
          redirect_success (parse_authorize_params consented) (codes "c1"),
          issued_code (codes "c1") 5 (parse_authorize_params consented) user [],
        )))
handle_post-IsAllowed_example = handle_post-IsAllowed config absolute (codes "c1") 5 consented []

handle_code_grant-issued_code_example :
    (handle_code_grant config crypto 6
      (codes "f")
      exchange_form
      (codes "app")
      (codes "secret")
      (record {
        tokens = table;
        auth_codes =
            some (issued_code (codes "c1") 5 (parse_authorize_params consented) (codes "ann") []);
      })).0
    ≡ (issue_tokens config crypto 6 (codes "f") (codes "ann") true table).0
unfolding parse_authorize_params get_param lookup is_empty str_eq post_value is_redirect_uri_allowed
handle_code_grant-issued_code_example =
    handle_code_grant-issued_code config crypto absolute consented exchange_form (codes "c1")
      (codes "f") 5 6 (codes "ann") [] table (refl, refl, refl, refl, refl, refl, refl)
      (refl, refl, refl, refl) refl (omega arith)
