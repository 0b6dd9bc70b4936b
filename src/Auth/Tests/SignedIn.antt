-- ===== src/Auth/Tests/SignedIn.antt =====
-- The laws of sessions at a concrete login.
use mock_salesforce.Base.{
  ◌+◌, ◌-◌, arith, ◌++◌, ◌≡◌, refl, true, none, some, [], ◌∷◌, Bytes, codes, Assoc, lookup, str_eq,
}
use mock_salesforce.Auth.Sessions.{
  Jwt, SessionClaims, jwt_header, dot, signed_text, login, is_password, validate_session,
  session_claims, parse_session_jwt,
}
use mock_salesforce.Auth.Sessions.Returns.{Urls}
use mock_salesforce.Auth.Sessions.Signed.{
  IsLossless, IsSigned, is_dotless, parse_session_jwt-IsSigned,
}
use mock_salesforce.Auth.Sessions.Login.{login-validate_session}

abbrev claims : SessionClaims
claims = session_claims 100 (codes "ann")

-- Texts are encoded as bytes above the dot, and decoded by subtraction.
abbrev encoded : Bytes → Bytes
encoded [] = []
encoded (c ∷ s) = (c + 47) ∷ encoded s

abbrev plain : Bytes → Bytes
plain [] = []
plain (c ∷ s) = (c - 47) ∷ plain s

encoded-dotless : (s : Bytes) → is_dotless (encoded s) ≡ true
unfolding is_dotless
encoded-dotless [] = refl
encoded-dotless (c ∷ s) = ground (arith, encoded-dotless s)

plain-encoded : (s : Bytes) → plain (encoded s) ≡ s
plain-encoded [] = refl
plain-encoded (c ∷ s) = let q : c + 47 - 47 ≡ c = omega arith in rw (q, plain-encoded s) refl

abbrev jwt : Jwt
jwt = record {
  marshal = λ c. some (codes "claims");
  unmarshal = λ s. some claims;
  header_alg = λ s. some (codes "HS256");
  encode = encoded;
  decode = λ s. some (plain s);
  hmac = λ key s. key;
}

jwt-IsLossless : IsLossless jwt claims
jwt-IsLossless = (encoded-dotless, λ s. rw (plain-encoded s) refl, refl, λ text h. refl)

abbrev urls : Urls
urls = record { parse = λ s. none; origins = []; trim = λ s. s }

abbrev users : Assoc Bytes
users = (codes "ann", codes "pass") ∷ []

abbrev form : Assoc Bytes
form = (codes "email", codes "ann") ∷ (codes "password", codes "pass") ∷ []

abbrev token : Bytes
token = signed_text jwt (codes "key") (encoded jwt_header ++ dot ++ encoded (codes "claims"))

login-validate_session_example :
    (validate_session jwt 43300 (some token) (codes "key") ≡ some (codes "ann"))
    × (is_password users (codes "ann") (codes "pass") ≡ true)
unfolding lookup str_eq login is_password
login-validate_session_example =
    login-validate_session jwt urls users (codes "key") (codes "/sf") 100 43300 true form token []
      (codes "/sf/home") jwt-IsLossless refl refl

parse_session_jwt-IsSigned_example : IsSigned jwt (codes "key") token
unfolding parse_session_jwt signed_text session_claims
parse_session_jwt-IsSigned_example =
    parse_session_jwt-IsSigned jwt 500 claims (codes "key") token refl
