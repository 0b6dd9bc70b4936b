-- ===== src/Auth/Tests.antt =====
-- The laws of authentication at concrete tables, codes and requests.
mod Rotated
mod Authorized
mod SignedIn
mod Revoked
use mock_salesforce.Base.{
  ℕ, ◌+◌, ◌≡◌, ◌⊎◌, refl, true, false, none, some, [], ◌∷◌, Bytes, codes, str_eq, is_empty,
  starts_with, lookup, insert, ltb, if◌then◌else◌,
}
use mock_salesforce.Auth.Tokens.{
  Tokens, TokenInfo, lookup_token, lookup_token_raw, mark_revoked, revoke_token, revoke_family,
}
use mock_salesforce.Auth.Tokens.Family.{
  outside, without, lookup_token-revoke_family, revoke_family_twice, lookup_token-mark_revoked,
}
use mock_salesforce.Auth.Guard.{Request, guard, sanitize_next}
use mock_salesforce.Auth.Guard.Passes.{IsGranted, guard-IsGranted, sanitize_next_iff}
use mock_salesforce.Auth.Codes.{AuthCode, Codes, issue, consume, lookup_code, auth_code_ttl}
use mock_salesforce.Auth.Codes.Spent.{Reaches, here, then', issued, tried, marked, consume_once}
use mock_salesforce.Auth.Endpoint.{
  Request as TokenRequest, Config, Crypto, State, handle_code_grant, exchange_refresh,
  invalid_grant,
}
use mock_salesforce.Auth.Endpoint.Exchange.{
  IsCodeReply, exchange_refresh-IsReplay, handle_code_grant-IsCodeReply,
}

abbrev pub old_refresh : TokenInfo
old_refresh = record {
  token = codes "r1";
  kind = codes "refresh";
  username = codes "ann";
  user_id = codes "005A";
  client_id = codes "app";
  scope = codes "api";
  issued_at = 10;
  expires_at = 0;
  refresh = [];
  family = codes "fam";
  revoked = true;
}

abbrev pub table : Tokens
table =
    (codes "r1", old_refresh)
    ∷ (codes "r2", record old_refresh { token = codes "r2"; revoked = false })
    ∷ (
      codes "a2",
      record old_refresh {
        token = codes "a2";
        kind = codes "access";
        expires_at = 7210;
        revoked = false;
      },
    )
    ∷ (
      codes "other",
      record old_refresh { token = codes "other"; family = codes "gam"; revoked = false },
    )
    ∷ []

abbrev page : Request
page = record {
  path = codes "/services/data/v66.0/query";
  raw_query = codes "q=SELECT";
  authorization = codes "Bearer a2";
  accept = codes "*/*";
  session = none;
  falcon_return = [];
}

guard-IsGranted_example : IsGranted 20 table page (guard 20 table page)
guard-IsGranted_example = guard-IsGranted 20 table page

abbrev with_code : Codes
with_code =
    (issue (codes "c1") 5 (codes "app") (codes "http://x/cb") [] (codes "pkce") (codes "S256")
      (codes "ann") []).1

abbrev taken : AuthCode
taken = record {
  code = codes "c1";
  client_id = codes "app";
  redirect_uri = codes "http://x/cb";
  scope = [];
  code_challenge = codes "pkce";
  code_challenge_method = codes "S256";
  username = codes "ann";
  issued_at = 5;
  expires_at = 5 + auth_code_ttl;
  used = true;
}

abbrev after : Codes
after = (consume 6 (codes "c1") with_code).1

abbrev later_codes : Codes
later_codes =
    (consume 7 (codes "c2")
      (issue (codes "c2") 6 (codes "app") [] [] [] [] (codes "bob") after).1).1

reached : Reaches after later_codes
unfolding issue consume lookup_code str_eq lookup insert
reached =
    then' (issued (codes "c2") 6 (codes "app") [] [] [] [] (codes "bob") refl)
      (then' (tried 7 (codes "c2")) here)

consume_once_example : (consume 9 (codes "c1") later_codes).0 ≡ none
unfolding issue consume lookup_code str_eq lookup insert
consume_once_example = consume_once 6 9 (codes "c1") with_code later_codes taken refl reached

abbrev pub config : Config
config = record {
  mock_client_id = codes "app";
  mock_client_secret = codes "secret";
  mock_users = [];
  mock_username = codes "ann";
  mock_password = codes "pass";
  mock_redirect_uris = [];
  mock_refresh_rotation = true;
}

abbrev pub crypto : Crypto
crypto = record {
  digest = λ s. codes "pkce";
  short_digest = λ s. s;
  decimal = λ n. n ∷ [];
  name_digest = λ s. s;
}

abbrev pub exchange_form : TokenRequest
exchange_form = record {
  basic = none;
  post =
      (codes "code", codes "c1")
      ∷ (codes "redirect_uri", codes "http://x/cb")
      ∷ (codes "code_verifier", codes "verifier")
      ∷ [];
  query = [];
}

abbrev state : State
state = record { tokens = table; auth_codes = some with_code }

handle_code_grant-IsCodeReply_example :
    IsCodeReply config crypto 6 exchange_form (codes "app") (codes "secret") state (
      handle_code_grant config crypto 6
        (codes "f")
        exchange_form
        (codes "app")
        (codes "secret")
        state)
handle_code_grant-IsCodeReply_example =
    handle_code_grant-IsCodeReply config crypto 6 (codes "f") exchange_form (codes "app")
      (codes "secret") state

exchange_refresh-IsReplay_example :
    ((exchange_refresh config crypto 30 (codes "r1") table).0 ≡ invalid_grant)
    × ((later : ℕ) (token : Bytes) (info : TokenInfo)
        → lookup_token later token (exchange_refresh config crypto 30 (codes "r1") table).1
          ≡ some info
        → str_eq info.family (codes "fam") ≡ false)
unfolding lookup_token_raw lookup str_eq is_empty
exchange_refresh-IsReplay_example =
    exchange_refresh-IsReplay config crypto 30 (codes "r1") table old_refresh (refl, refl, refl)
      refl
