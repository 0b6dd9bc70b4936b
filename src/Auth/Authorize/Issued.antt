-- ===== src/Auth/Authorize/Issued.antt =====
-- When a code is issued (internal/handlers/authorize.go).
use mock_salesforce.Base.{
  ℕ, ◌≡◌, ◌⊎◌, refl, inl, inr, Bool-cases, Option-cases, Bool, true, false, none, some, Bytes,
  codes, is_empty, str_eq, str_eq_iff, lookup, arith,
}
use mock_salesforce.Auth.Codes.{Codes, issue}
use mock_salesforce.Auth.Endpoint.{Config, or_blank, is_redirect_uri_allowed}
use mock_salesforce.Auth.Authorize.{
  AuthorizeRequest, AuthorizeParams, Outcome, error_page, redirect_error, redirect_to_login,
  answered, signed_in, parse_authorize_params, validate_client_and_redirect, validate_rest,
  redirect_success, check, decide, handle_post,
}

-- The client and its redirect URI are known, the request is for a code with an S256 challenge, and the
-- user is signed in.
abbrev pub IsAllowed : Config → (Bytes → Bool) → AuthorizeRequest → AuthorizeParams → Bytes → Type 0
IsAllowed c is_absolute r p user =
    (p.client_id ≡ c.mock_client_id)
    × (is_absolute p.redirect_uri ≡ true)
    × (is_redirect_uri_allowed c p.redirect_uri ≡ true)
    × (p.response_type ≡ codes "code")
    × (is_empty p.code_challenge ≡ false)
    × (p.code_challenge_method ≡ codes "S256")
    × (r.session ≡ some user)

client_valid :
    (c : Config) (is_absolute : Bytes → Bool) (p : AuthorizeParams)
    → validate_client_and_redirect c is_absolute p ≡ none
    → (str_eq p.client_id c.mock_client_id ≡ true)
      × (is_absolute p.redirect_uri ≡ true)
      × (is_redirect_uri_allowed c p.redirect_uri ≡ true)
unfolding validate_client_and_redirect
client_valid c is_absolute p h = ground arith

rest_valid :
    (p : AuthorizeParams)
    → validate_rest p ≡ none
    → (str_eq p.response_type (codes "code") ≡ true)
      × (is_empty p.code_challenge ≡ false)
      × (str_eq p.code_challenge_method (codes "S256") ≡ true)
unfolding validate_rest
rest_valid p h = ground arith

check_cases :
    (c : Config) (is_absolute : Bytes → Bool) (r : AuthorizeRequest) (p : AuthorizeParams)
    → ((out : Outcome) × (check c is_absolute r p ≡ answered out))
      ⊎ ((user : Bytes) × IsAllowed c is_absolute r p user
          × (check c is_absolute r p ≡ signed_in user))
unfolding check
check_cases c is_absolute r p = elim (Option-cases (validate_client_and_redirect c is_absolute p)) [
  | inr (error, e) ↦ inl (error_page error, rw (e, check) refl)
  | inl e ↦ elim (Option-cases (validate_rest p)) [
    | inr ((code, text), f) ↦ inl (redirect_error p code text, rw (e, check, f) refl)
    | inl f ↦ elim (Option-cases r.session) [
      | inl g ↦ inl (redirect_to_login r, rw (e, check, f, g) refl)
      | inr (user, g) ↦
          let (a, b, d) = client_valid c is_absolute p e in
          let (k, l, m) = rest_valid p f in
          inr (
            user,
            ((str_eq_iff _ _).0 a, b, d, (str_eq_iff _ _).0 k, l, (str_eq_iff _ _).0 m, g),
            rw (e, check, f, g) refl,
          )
    ]
  ]
]

-- The code that the handler issues for a user.
abbrev pub issued_code : Bytes → ℕ → AuthorizeParams → Bytes → Codes → Codes
issued_code fresh now p user s =
    (issue fresh now p.client_id p.redirect_uri p.scope p.code_challenge p.code_challenge_method
      user s).1

-- The POST handler leaves the store of codes as it is, or the client, its redirect URI, the response
-- type, the S256 challenge and the session are valid, the action is allow, and it issues a code for the
-- session's user to these, and redirects with that code.
pub handle_post-IsAllowed :
    (c : Config) (is_absolute : Bytes → Bool) (fresh : Bytes) (now : ℕ) (r : AuthorizeRequest)
    (s : Codes)
    → ((handle_post c is_absolute fresh now r s).1 ≡ s)
      ⊎ ((user : Bytes) × IsAllowed c is_absolute r (parse_authorize_params r) user
          × (or_blank (lookup (codes "action") r.post) ≡ codes "allow")
          × (handle_post c is_absolute fresh now r s ≡ (
            redirect_success (parse_authorize_params r) fresh,
            issued_code fresh now (parse_authorize_params r) user s,
          )))
unfolding handle_post decide issue
handle_post-IsAllowed c is_absolute fresh now r s = elim (Bool-cases r.is_form) [
  | inr f ↦ inl (rw (f, handle_post) refl)
  | inl f ↦ elim (check_cases c is_absolute r (parse_authorize_params r)) [
    | inl (out, e) ↦ inl (rw (f, handle_post, e) refl)
    | inr (user, a, e) ↦
        elim (Bool-cases (str_eq (or_blank (lookup (codes "action") r.post)) (codes "allow"))) [
          | inr n ↦ inl (rw (f, handle_post, e, decide, n) refl)
          | inl y ↦ inr (user, a, (str_eq_iff _ _).0 y, rw (f, handle_post, e, decide, y) refl)
        ]
  ]
]
