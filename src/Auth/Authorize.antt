-- ===== src/Auth/Authorize.antt =====
-- The authorization endpoint (internal/handlers/authorize.go). A request carries what the handlers read
-- of it; `session` is the user of a session cookie that validates. The pages are what they are rendered
-- from, and a redirect is its target with the query parameters that are set on it.
pub mod Issued
pub mod Exchanged
use mock_salesforce.Base.{
  ℕ, Bool, true, false, not, Option, none, some, [], ◌∷◌, ◌++◌, Bytes, codes, is_empty, str_eq,
  Assoc, lookup, if◌then◌else◌,
}
use mock_salesforce.Auth.Codes.{Codes, AuthCode, issue}
use mock_salesforce.Auth.Endpoint.{Config, or_blank, is_redirect_uri_allowed}

pub record AuthorizeRequest : Type 0 where
  pub is_post : Bool
  -- whether `ParseForm` reads the body
  pub is_form : Bool
  pub path : Bytes
  pub raw_query : Bytes
  pub post : Assoc Bytes
  pub query : Assoc Bytes
  pub session : Option Bytes

pub record AuthorizeParams : Type 0 where
  pub response_type : Bytes
  pub client_id : Bytes
  pub redirect_uri : Bytes
  pub scope : Bytes
  pub state : Bytes
  pub code_challenge : Bytes
  pub code_challenge_method : Bytes

-- The function `get` of `parseAuthorizeParams`
unfoldable pub get_param : AuthorizeRequest → Bytes → Bytes
unfolding lookup is_empty
get_param r name =
    let posted = if r.is_post then or_blank (lookup name r.post) else [] in
    if is_empty posted then or_blank (lookup name r.query) else posted

unfoldable pub parse_authorize_params : AuthorizeRequest → AuthorizeParams
unfolding get_param
parse_authorize_params r = record {
  response_type = get_param r (codes "response_type");
  client_id = get_param r (codes "client_id");
  redirect_uri = get_param r (codes "redirect_uri");
  scope = get_param r (codes "scope");
  state = get_param r (codes "state");
  code_challenge = get_param r (codes "code_challenge");
  code_challenge_method = get_param r (codes "code_challenge_method");
}

pub data Outcome : Type 0 where
  error_page : Bytes → Outcome
  redirect : Bytes → Assoc Bytes → Outcome
  to_login : Bytes → Outcome
  consent : AuthorizeParams → Bytes → Outcome

-- `validateClientAndRedirect`, with `u.IsAbs()` for a text that `url.Parse` reads: the error that is
-- shown on a page, if there is one.
unfoldable pub validate_client_and_redirect :
    Config → (Bytes → Bool) → AuthorizeParams → Option Bytes
unfolding is_empty str_eq is_redirect_uri_allowed
validate_client_and_redirect c is_absolute p =
    if is_empty p.client_id
    then some (codes "invalid_request")
    else if not (str_eq p.client_id c.mock_client_id)
    then some (codes "invalid_client")
    else if is_empty p.redirect_uri
    then some (codes "invalid_request")
    else if not (is_absolute p.redirect_uri)
    then some (codes "invalid_request")
    else if not (is_redirect_uri_allowed c p.redirect_uri)
    then some (codes "invalid_request")
    else none

-- `validateRest`: the error that is sent to the client, with its description.
unfoldable pub validate_rest : AuthorizeParams → Option (Bytes × Bytes)
unfolding is_empty str_eq
validate_rest p =
    if is_empty p.response_type
    then some (codes "invalid_request", codes "response_type is required")
    else if not (str_eq p.response_type (codes "code"))
    then some (codes "unsupported_response_type", codes "only response_type=code is supported")
    else if is_empty p.code_challenge
    then some (codes "invalid_request", codes "code_challenge is required (PKCE)")
    else if is_empty p.code_challenge_method
    then some (codes "invalid_request", codes "code_challenge_method is required")
    else if not (str_eq p.code_challenge_method (codes "S256"))
    then some (codes "invalid_request", codes "code_challenge_method must be S256")
    else none

-- A parameter that is set only if it is not blank.
abbrev if_given : Bytes → Bytes → Assoc Bytes → Assoc Bytes
if_given name value rest = if is_empty value then rest else (name, value) ∷ rest

unfoldable pub redirect_error : AuthorizeParams → Bytes → Bytes → Outcome
unfolding is_empty
redirect_error p code description = redirect p.redirect_uri (
    (codes "error", code)
    ∷ if_given (codes "error_description") description (if_given (codes "state") p.state []))

unfoldable pub redirect_success : AuthorizeParams → Bytes → Outcome
unfolding is_empty
redirect_success p code =
    redirect p.redirect_uri ((codes "code", code) ∷ if_given (codes "state") p.state [])

-- `redirectToLogin`: the `next` of the login page.
unfoldable pub redirect_to_login : AuthorizeRequest → Outcome
unfolding is_empty
redirect_to_login r =
    to_login (if is_empty r.raw_query then r.path else r.path ++ codes "?" ++ r.raw_query)

-- The checks that both handlers make, in their order: what they answer, or the user.
pub data Checked : Type 0 where
  answered : Outcome → Checked
  signed_in : Bytes → Checked

unfoldable pub check : Config → (Bytes → Bool) → AuthorizeRequest → AuthorizeParams → Checked
unfolding validate_client_and_redirect validate_rest redirect_error redirect_to_login
check c is_absolute r p = elim (validate_client_and_redirect c is_absolute p) [
  | some error ↦ answered (error_page error)
  | none ↦ elim (validate_rest p) [
    | some (code, description) ↦ answered (redirect_error p code description)
    | none ↦ elim r.session [ none ↦ answered (redirect_to_login r) | some user ↦ signed_in user ]
  ]
]

-- `HandleGet`
unfoldable pub handle_get : Config → (Bytes → Bool) → AuthorizeRequest → Outcome
unfolding parse_authorize_params check
handle_get c is_absolute r =
    let p = parse_authorize_params r in
    elim (check c is_absolute r p) [ answered out ↦ out | signed_in user ↦ consent p user ]

-- What `HandlePost` does for a user who is signed in.
unfoldable pub decide :
    Bytes → ℕ → AuthorizeRequest → AuthorizeParams → Bytes → Codes → Outcome × Codes
unfolding str_eq lookup redirect_error redirect_success issue
decide fresh now r p user s =
    if not (str_eq (or_blank (lookup (codes "action") r.post)) (codes "allow"))
    then (redirect_error p (codes "access_denied") (codes "user denied request"), s)
    else (let issued =
          issue fresh now p.client_id p.redirect_uri p.scope p.code_challenge
            p.code_challenge_method user s in
        (redirect_success p issued.0.code, issued.1))

-- `HandlePost`, with the code that `generateAuthCode` gives.
unfoldable pub handle_post :
    Config → (Bytes → Bool) → Bytes → ℕ → AuthorizeRequest → Codes → Outcome × Codes
unfolding parse_authorize_params check decide
handle_post c is_absolute fresh now r s =
    let p = parse_authorize_params r in
    if not r.is_form
    then (error_page (codes "invalid_request"), s)
    else elim (check c is_absolute r p) [
      | answered out ↦ (out, s)
      | signed_in user ↦ decide fresh now r p user s
    ]
