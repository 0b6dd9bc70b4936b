-- ===== src/Auth/Endpoint/Clients.antt =====
-- The checks of clients, users and PKCE (internal/handlers/oauth.go). A check that writes an error
-- response gives that reply.
use mock_salesforce.Base.{
  Bool, true, false, not, ◌&&◌, ◌||◌, Option, none, some, [], ◌∷◌, Bytes, codes, is_empty, str_eq,
  lookup, length, take, ltb, if◌then◌else◌,
}
use mock_salesforce.Auth.Endpoint.Forms.{Config, Crypto, Request, post_value, Reply, failed}

-- `extractClientCredentials`: conflicting credentials, or the pair if there is one.
pub data Credentials : Type 0 where
  conflicting absent : Credentials
  supplied : Bytes → Bytes → Credentials

unfoldable pub extract_client_credentials : Request → Credentials
unfolding post_value is_empty str_eq
extract_client_credentials r =
    let id = post_value r (codes "client_id") in
    let secret = post_value r (codes "client_secret") in
    let has_form = not (is_empty id) || not (is_empty secret) in
    elim r.basic [
      | some basic ↦
          if has_form && (not (str_eq basic.0 id) || not (str_eq basic.1 secret))
          then conflicting
          else supplied basic.0 basic.1
      | none ↦ if has_form then supplied id secret else absent
    ]

-- `validateClient`
unfoldable pub validate_client : Config → Bytes → Bytes → Option Reply
unfolding str_eq
validate_client c id secret =
    if not (str_eq id c.mock_client_id)
    then some (failed 400 (codes "invalid_client_id"))
    else if not (str_eq secret c.mock_client_secret)
    then some (failed 400 (codes "invalid_client"))
    else none

-- `requireClientAuth`
unfoldable pub require_client_auth : Config → Request → Option Reply
unfolding str_eq extract_client_credentials
require_client_auth c r = elim (extract_client_credentials r) [
  | conflicting ↦ some (failed 400 (codes "invalid_request"))
  | absent ↦ some (failed 401 (codes "invalid_client"))
  | supplied id secret ↦
      if str_eq id c.mock_client_id && str_eq secret c.mock_client_secret
      then none
      else some (failed 401 (codes "invalid_client"))
]

-- The user's password, and whether the user is known.
unfoldable pub expected_password : Config → Bytes → Bytes × Bool
unfolding lookup str_eq
expected_password c username = elim c.mock_users [
  | [] ↦ (c.mock_password, str_eq username c.mock_username)
  | _ ∷ _ ↦ elim (lookup username c.mock_users) [ some v ↦ (v, true) | none ↦ ([], false) ]
]

-- `validateUser`
unfoldable pub validate_user : Config → Bytes → Bytes → Bool
unfolding expected_password str_eq
validate_user c username password =
    let expected = expected_password c username in
    let password_match = str_eq password expected.0 in
    let token_match =
      ltb (length expected.0) (length password)
      && str_eq (take (length expected.0) password) expected.0 in
    expected.1 && (password_match || token_match)

-- `verifyPKCE`
unfoldable pub verify_pkce : Crypto → Bytes → Bytes → Bytes → Bool
unfolding is_empty str_eq
verify_pkce y verifier challenge method =
    if is_empty verifier || is_empty challenge
    then false
    else if not (str_eq method (codes "S256"))
    then false
    else str_eq (y.digest verifier) challenge
