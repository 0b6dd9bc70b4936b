-- ===== src/Auth/Authorize/Exchanged.antt =====
-- The flow from the authorization endpoint to the token endpoint (internal/handlers/authorize.go,
-- internal/handlers/oauth.go).
use mock_salesforce.Base.{
  ℕ, ◌+◌, ◌≤◌, ◌≡◌, refl, sym, ap, ◌∙◌, Bool, true, false, none, some, Bytes, codes, is_empty,
  str_eq, str_eq_iff, str_eq_refl, ltb, arith,
}
use mock_salesforce.Auth.Tokens.{Tokens}
use mock_salesforce.Auth.Codes.{Codes, AuthCode, issue, consume, auth_code_ttl}
use mock_salesforce.Auth.Codes.Spent.{consume-issue, marked}
use mock_salesforce.Auth.Endpoint.{
  Config, Crypto, Request, post_value, verify_pkce, validate_client, issue_tokens, check_code,
  exchange_code, handle_code_grant,
}
use mock_salesforce.Auth.Authorize.{AuthorizeRequest, AuthorizeParams, parse_authorize_params}
use mock_salesforce.Auth.Authorize.Issued.{IsAllowed, issued_code}

-- The form exchanges the code: it names the redirect URI of the request, and its verifier has the
-- challenge as its digest.
abbrev pub Redeems : Crypto → Bytes → AuthorizeParams → Request → Type 0
Redeems y fresh p form =
    (post_value form (codes "code") ≡ fresh)
    × (post_value form (codes "redirect_uri") ≡ p.redirect_uri)
    × (is_empty (post_value form (codes "code_verifier")) ≡ false)
    × (y.digest (post_value form (codes "code_verifier")) ≡ p.code_challenge)

abbrev pub entry : Bytes → ℕ → AuthorizeParams → Bytes → Codes → AuthCode
entry fresh now p user s =
    marked
      (issue fresh now p.client_id p.redirect_uri p.scope p.code_challenge p.code_challenge_method
        user s).0

entry_consumed :
    (fresh : Bytes) (now later : ℕ) (p : AuthorizeParams) (user : Bytes) (s : Codes)
    → later ≤ now + auth_code_ttl
    → (consume later fresh (issued_code fresh now p user s)).0 ≡ some (entry fresh now p user s)
entry_consumed fresh now later p user s h =
    let late : ltb (now + auth_code_ttl) later ≡ false = ground arith in
    consume-issue fresh now later p.client_id p.redirect_uri p.scope p.code_challenge
      p.code_challenge_method user s
    ∙ rw late refl

pkce_passes :
    (y : Crypto) (verifier challenge method : Bytes)
    → is_empty verifier ≡ false
    → is_empty challenge ≡ false
    → method ≡ codes "S256"
    → y.digest verifier ≡ challenge
    → verify_pkce y verifier challenge method ≡ true
unfolding verify_pkce str_eq
pkce_passes y verifier challenge method v h m d =
    rw (v, h, m) ((str_eq_iff (y.digest verifier) challenge).1 d)

-- The checks of the code's entry.
entry_passes :
    (c : Config) (y : Crypto) (is_absolute : Bytes → Bool) (r : AuthorizeRequest) (form : Request)
    (fresh : Bytes) (now : ℕ) (user : Bytes) (s : Codes)
    → IsAllowed c is_absolute r (parse_authorize_params r) user
    → Redeems y fresh (parse_authorize_params r) form
    → check_code c y form c.mock_client_id (entry fresh now (parse_authorize_params r) user s)
      ≡ true
unfolding check_code issue
entry_passes c y is_absolute r form fresh now user s (a, _, u, _, h, m, _) (_, same, v, d) =
    let p = parse_authorize_params r in
    rw
      (
        (str_eq_iff p.client_id c.mock_client_id).1 a,
        (str_eq_iff p.redirect_uri (post_value form (codes "redirect_uri"))).1 (sym same),
        u,
        pkce_passes y (post_value form (codes "code_verifier")) p.code_challenge
            p.code_challenge_method v h m d,
      )
      refl

valid_client : (c : Config) → validate_client c c.mock_client_id c.mock_client_secret ≡ none
unfolding validate_client
valid_client c = rw (str_eq_refl c.mock_client_id, str_eq_refl c.mock_client_secret) refl

exchanged :
    (c : Config) (y : Crypto) (later : ℕ) (random : Bytes) (form : Request) (client code : Bytes)
    (held : Codes) (tokens : Tokens) (ac : AuthCode)
    → (consume later code held).0 ≡ some ac
    → check_code c y form client ac ≡ true
    → (exchange_code c y later random form client code held tokens).0
      ≡ (issue_tokens c y later random ac.username true tokens).0
unfolding exchange_code
exchanged c y later random form client code held tokens ac e k = rw (e, exchange_code, k) refl

-- A code that the authorization endpoint issued, for a request that it allows, is exchanged for the
-- user's tokens by the client with its secret, the redirect URI of the request and the verifier of its
-- challenge, within ten minutes.
pub handle_code_grant-issued_code :
    (c : Config) (y : Crypto) (is_absolute : Bytes → Bool) (r : AuthorizeRequest) (form : Request)
    (fresh random : Bytes) (now later : ℕ) (user : Bytes) (s : Codes) (tokens : Tokens)
    → IsAllowed c is_absolute r (parse_authorize_params r) user
    → Redeems y fresh (parse_authorize_params r) form
    → is_empty fresh ≡ false
    → later ≤ now + auth_code_ttl
    → (handle_code_grant c y later random form c.mock_client_id c.mock_client_secret (record {
      tokens = tokens;
      auth_codes = some (issued_code fresh now (parse_authorize_params r) user s);
    })).0
      ≡ (issue_tokens c y later random user true tokens).0
unfolding handle_code_grant issue
handle_code_grant-issued_code c y is_absolute r form fresh random now later user s tokens a k n h =
    let held = issued_code fresh now (parse_authorize_params r) user s in
    let full : is_empty (post_value form (codes "code")) ≡ false = ap is_empty k.0 ∙ n in
    rw (valid_client c, full, handle_code_grant)
      (ap (λ x. (exchange_code c y later random form c.mock_client_id x held tokens).0) k.0
        ∙ exchanged c y later random form c.mock_client_id fresh held tokens
            (entry fresh now (parse_authorize_params r) user s)
            (entry_consumed fresh now later (parse_authorize_params r) user s h)
            (entry_passes c y is_absolute r form fresh now user s a k))
