-- ===== src/Auth/Sessions/Login.antt =====
-- The login form of internal/server/middleware/auth.go: what a successful login sets.
use mock_salesforce.Base.{
  ℕ, ◌+◌, ◌≡◌, sym, subst, Bool, true, false, some, Bytes, codes, Assoc, lookup, arith, ltb,
}
use mock_salesforce.Auth.Endpoint.{or_blank}
use mock_salesforce.Auth.Sessions.{
  Jwt, LoginReply, logged_in, login, is_password, validate_session, session_claims,
  session_duration, mint_session_jwt, unless_expired,
}
use mock_salesforce.Auth.Sessions.Returns.{Urls}
use mock_salesforce.Auth.Sessions.Signed.{IsLossless, parse_session_jwt-mint_session_jwt}

validate_session-mint_session_jwt :
    (y : Jwt) (now later : ℕ) (email secret token : Bytes)
    → IsLossless y (session_claims now email)
    → mint_session_jwt y (session_claims now email) secret ≡ some token
    → ltb (now + session_duration) later ≡ false
    → validate_session y later (some token) secret ≡ some email
unfolding validate_session unless_expired session_claims
validate_session-mint_session_jwt y now later email secret token l m fresh =
    rw
      (
        validate_session,
        parse_session_jwt-mint_session_jwt y later (session_claims now email) secret token l m,
        unless_expired,
        session_claims,
        fresh,
      )
      (ground arith)

-- The reply to a login is not a session, or its cookie is the token of the form's email, and the
-- form's password is that user's.
IsLogin : Jwt → Assoc Bytes → Bytes → ℕ → Assoc Bytes → LoginReply → Type 0
IsLogin y users secret now form (logged_in cookie back dest) =
    (cookie
      ≡ mint_session_jwt y (session_claims now (or_blank (lookup (codes "email") form))) secret)
    × (is_password users (or_blank (lookup (codes "email") form))
          (or_blank (lookup (codes "password") form))
        ≡ true)
IsLogin y users secret now form _ = Unit

login-IsLogin :
    (y : Jwt) (urls : Urls) (users : Assoc Bytes) (secret base_path : Bytes) (now : ℕ)
    (is_post : Bool) (form : Assoc Bytes)
    → IsLogin y users secret now form (login y urls users secret base_path now is_post form)
unfolding IsLogin login
login-IsLogin y urls users secret base_path now is_post form = ground arith

-- After a login that sets a cookie, the form's password was that of the form's email, and until
-- `session_duration` has passed the cookie is read under the same key as a session of that email, if
-- Go's encodings can be read back.
pub login-validate_session :
    (y : Jwt) (urls : Urls) (users : Assoc Bytes) (secret base_path : Bytes) (now later : ℕ)
    (is_post : Bool) (form : Assoc Bytes) (token back dest : Bytes)
    → IsLossless y (session_claims now (or_blank (lookup (codes "email") form)))
    → login y urls users secret base_path now is_post form ≡ logged_in (some token) back dest
    → ltb (now + session_duration) later ≡ false
    → (validate_session y later (some token) secret ≡ some (or_blank (lookup (codes "email") form)))
      × (is_password users
            (or_blank (lookup (codes "email") form))
            (or_blank (lookup (codes "password") form))
          ≡ true)
unfolding IsLogin
login-validate_session y urls users secret base_path now later is_post form token back dest l h f =
    let made : IsLogin y users secret now form (logged_in (some token) back dest) =
      subst (λ r. IsLogin y users secret now form r) h
        (login-IsLogin y urls users secret base_path now is_post form) in
    (
      validate_session-mint_session_jwt y now later (or_blank (lookup (codes "email") form)) secret
          token l (sym (made.0)) f,
      made.1,
    )
