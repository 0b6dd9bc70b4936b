-- ===== src/Auth/Sessions.antt =====
-- Session tokens, the login form and return URLs (internal/server/middleware/jwt.go, auth.go and
-- falcon_return.go). A cookie is its value; the clock is in unix seconds.
pub mod Returns
pub mod Signed
pub mod Login
use mock_salesforce.Base.{
  ℕ, ◌+◌, ◌*◌, Bool, true, false, not, ◌&&◌, Option, none, some, List, [], ◌∷◌, ◌++◌, Bytes, codes,
  is_empty, str_eq, Assoc, lookup, ltb, ◌==◌, if◌then◌else◌,
}
use mock_salesforce.Auth.Guard.{sanitize_next}
use mock_salesforce.Auth.Endpoint.{or_blank}
use mock_salesforce.Auth.Sessions.Returns.{Urls, validate_falcon_return}

pub record SessionClaims : Type 0 where
  pub sub : Bytes
  pub name : Bytes
  pub email : Bytes
  pub iat : ℕ
  pub exp : ℕ

-- Go's packages: `json` on claims and on the header, of which `header_alg` gives the field `alg`,
-- `base64.RawURLEncoding`, and the HMAC with SHA-256 of a text under a key.
pub record Jwt : Type 0 where
  pub marshal : SessionClaims → Option Bytes
  pub unmarshal : Bytes → Option SessionClaims
  pub header_alg : Bytes → Option Bytes
  pub encode : Bytes → Bytes
  pub decode : Bytes → Option Bytes
  pub hmac : Bytes → Bytes → Bytes

abbrev pub jwt_header : Bytes
jwt_header = codes "{\"alg\":\"HS256\",\"typ\":\"JWT\"}"

abbrev pub dot : Bytes
dot = b'.' ∷ []

-- The text that is signed, with its signature.
unfoldable pub signed_text : Jwt → Bytes → Bytes → Bytes
signed_text y secret signing = signing ++ dot ++ y.encode (y.hmac secret signing)

-- `MintSessionJWT`
unfoldable pub mint_session_jwt : Jwt → SessionClaims → Bytes → Option Bytes
unfolding signed_text
mint_session_jwt y c secret = elim (y.marshal c) [
  | none ↦ none
  | some payload ↦ some (signed_text y secret (y.encode jwt_header ++ dot ++ y.encode payload))
]

abbrev pub prepend : ℕ → List Bytes → List Bytes
prepend c [] = (c ∷ []) ∷ []
prepend c (p ∷ ps) = (c ∷ p) ∷ ps

-- `strings.Split(s, ".")`
unfoldable pub split_dots : Bytes → List Bytes
split_dots [] = [] ∷ []
split_dots (c ∷ s) = let rest = split_dots s in if c == b'.' then [] ∷ rest else prepend c rest

-- The end of `ParseSessionJWT`: the expiry.
unfoldable pub unless_expired : ℕ → Option SessionClaims → Option SessionClaims
unless_expired now none = none
unless_expired now (some c) = if not (c.exp == 0) && ltb c.exp now then none else some c

abbrev decoded : Option Bytes → (Bytes → Option SessionClaims) → Option SessionClaims
decoded none f = none
decoded (some bytes) f = f bytes

-- The header and the payload, after the signature is verified.
unfoldable pub read_claims : Jwt → ℕ → Bytes → Bytes → Option SessionClaims
unfolding str_eq unless_expired
read_claims y now header payload = decoded (y.decode header) λ bytes. elim (y.header_alg bytes) [
  | none ↦ none
  | some alg ↦
      if not (str_eq alg (codes "HS256"))
      then none
      else decoded (y.decode payload) λ text. unless_expired now (y.unmarshal text)
]

-- `ParseSessionJWT`, on the parts of the token.
unfoldable pub parse_parts : Jwt → ℕ → List Bytes → Bytes → Option SessionClaims
unfolding str_eq read_claims
parse_parts y now (header ∷ payload ∷ signature ∷ []) secret =
    if not (str_eq (y.encode (y.hmac secret (header ++ dot ++ payload))) signature)
    then none
    else read_claims y now header payload
parse_parts y now _ secret = none

unfoldable pub parse_session_jwt : Jwt → ℕ → Bytes → Bytes → Option SessionClaims
unfolding split_dots parse_parts
parse_session_jwt y now token secret = parse_parts y now (split_dots token) secret

-- `validateSessionCookie` and `ValidateSession`, on the cookie's value.
unfoldable pub validate_session : Jwt → ℕ → Option Bytes → Bytes → Option Bytes
unfolding parse_session_jwt
validate_session y now none secret = none
validate_session y now (some token) secret = elim (parse_session_jwt y now token secret) [
  | none ↦ none
  | some c ↦ some c.email
]

-- `sessionDuration`, in seconds
abbrev pub session_duration : ℕ
session_duration = 12 * 60 * 60

-- The claims of `SetSessionCookie`
unfoldable pub session_claims : ℕ → Bytes → SessionClaims
session_claims now email = record {
  sub = email;
  name = email;
  email = email;
  iat = now;
  exp = now + session_duration;
}

-- The reply to a login: an error, the login page again with parameters, or a redirect with the session
-- cookie that is set, if it is, and the return URL for its cookie.
pub data LoginReply : Type 0 where
  method_not_allowed : LoginReply
  login_again : Assoc Bytes → LoginReply
  logged_in : Option Bytes → Bytes → Bytes → LoginReply

abbrev if_given : Bytes → Bytes → Assoc Bytes → Assoc Bytes
if_given name value rest = if is_empty value then rest else (name, value) ∷ rest

-- The user's password, and whether it is the one given.
unfoldable pub is_password : Assoc Bytes → Bytes → Bytes → Bool
unfolding lookup str_eq
is_password users email password = elim (lookup email users) [
  | none ↦ false
  | some expected ↦ str_eq expected password
]

-- `LoginHandler`, on the values of the form.
unfoldable pub login :
    Jwt → Urls → Assoc Bytes → Bytes → Bytes → ℕ → Bool → Assoc Bytes → LoginReply
unfolding lookup is_empty is_password validate_falcon_return sanitize_next mint_session_jwt
    session_claims
login y urls users secret base_path now is_post form =
    let email = or_blank (lookup (codes "email") form) in
    let back = validate_falcon_return urls (or_blank (lookup (codes "falcon_return") form)) in
    let next = sanitize_next (or_blank (lookup (codes "next") form)) in
    if not is_post
    then method_not_allowed
    else if not (is_password users email (or_blank (lookup (codes "password") form)))
    then login_again (
        (codes "error", codes "invalid")
        ∷ if_given (codes "next") next (if_given (codes "falcon_return") back []))
    else logged_in (mint_session_jwt y (session_claims now email) secret) back
        (base_path ++ (if is_empty next then codes "/home" else next))
