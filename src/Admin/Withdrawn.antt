-- ===== src/Admin/Withdrawn.antt =====
-- Requests without the admin token, and tokens after deletions (internal/handlers/admin_users.go).
use mock_salesforce.Base.{
  ℕ, ◌≡◌, ◌≢◌, ◌⊎◌, refl, ap, ◌∙◌, inl, inr, Bool-cases, Option-cases, false, Option, none, [],
  Bytes, codes, is_empty, str_eq, str_eq_iff, arith,
}
use mock_salesforce.Auth.Tokens.{lookup_token}
use mock_salesforce.Auth.Tokens.Family.{lookup_token-revoke_token}
use mock_salesforce.Auth.Guard.{Request, by_bearer, guard, or_bearer_user}
use mock_salesforce.Users.{
  User, UserToken, UserError, not_found, token_not_found, username_taken, empty_username,
  empty_password, ok, Packages, get_user, get_token, delete_token,
}
use mock_salesforce.Admin.{
  AdminRequest, AdminState, admin_error, method_not_allowed, minted, no_content, store_error,
  is_authorized, handle_users, handle_user, handle_tokens, handle_token_delete, remove_token,
  update_user_handler,
}
use mock_salesforce.Admin.Minted.{IsAlive, Shows, guard-handle_tokens}

-- No admin token is configured, or the request has another.
abbrev pub IsRefused : Bytes → AdminRequest → Type 0
IsRefused admin_token r = (admin_token ≡ []) ⊎ (r.admin_token ≢ admin_token)

refused_lem :
    (admin_token : Bytes) (r : AdminRequest)
    → IsRefused admin_token r
    → is_authorized admin_token r ≡ false
unfolding is_authorized is_empty
refused_lem admin_token r (inl e) = rw e refl
refused_lem admin_token r (inr n) = elim (Bool-cases (str_eq r.admin_token admin_token)) [
  | inl e ↦ absurd (n ((str_eq_iff _ _).0 e))
  | inr e ↦ elim (Bool-cases (is_empty admin_token)) [ inl f ↦ rw f refl | inr f ↦ rw (f, e) refl ]
]

-- If no admin token is configured, or the request has another, every handler replies 401, and the
-- users and the tokens stay as they are.
pub admin-IsRefused :
    (y : Packages) (admin_token : Bytes) (random random' : Option Bytes) (now : ℕ)
    (r : AdminRequest) (id token_id : Bytes) (s : AdminState)
    → IsRefused admin_token r
    → (handle_users y admin_token random now r s ≡ (admin_error 401, s))
      × (handle_user y admin_token now r id s ≡ (admin_error 401, s))
      × (handle_tokens y admin_token random random' now r id s ≡ (admin_error 401, s))
      × (handle_token_delete admin_token r id token_id s ≡ (admin_error 401, s))
unfolding handle_users handle_user handle_tokens handle_token_delete
admin-IsRefused y admin_token random random' now r id token_id s h =
    let n = refused_lem admin_token r h in
    (
      rw (n, handle_users) refl,
      rw (n, handle_user) refl,
      rw (n, handle_tokens) refl,
      rw (n, handle_token_delete) refl,
    )

update_user_handler-tokens :
    (y : Packages) (now : ℕ) (r : AdminRequest) (id : Bytes) (s : AdminState)
    → (update_user_handler y now r id s).1.tokens ≡ s.tokens
unfolding update_user_handler
update_user_handler-tokens y now r id s = elim (Option-cases r.update_body) [
  | inl e ↦ rw (e, update_user_handler) refl
  | inr (patch, e) ↦ rw (e, update_user_handler) refl
]

handle_user-tokens :
    (y : Packages) (admin_token : Bytes) (now : ℕ) (r : AdminRequest) (id : Bytes) (s : AdminState)
    → (handle_user y admin_token now r id s).1.tokens ≡ s.tokens
unfolding handle_user
handle_user-tokens y admin_token now r id s = elim (Bool-cases (is_authorized admin_token r)) [
  | inr a ↦ rw (a, handle_user) refl
  | inl a ↦ elim (Bool-cases (str_eq r.method (codes "GET"))) [
    | inl g ↦ rw (a, handle_user, g) refl
    | inr g ↦ elim (Bool-cases (str_eq r.method (codes "PATCH"))) [
      | inl p ↦ rw (a, handle_user, g, p) (update_user_handler-tokens y now r id s)
      | inr p ↦ elim (Bool-cases (str_eq r.method (codes "DELETE"))) [
        | inl d ↦ rw (a, handle_user, g, p, d) refl
        | inr d ↦ rw (a, handle_user, g, p, d) refl
      ]
    ]
  ]
]

-- A token that the endpoint mints is accepted by the guard until it expires even if its user, or any
-- other, is deleted or changed in between.
pub guard-handle_user :
    (y : Packages) (admin_token : Bytes) (random random' : Option Bytes) (now later : ℕ)
    (r : AdminRequest) (id : Bytes) (s : AdminState) (tok : UserToken) (page : Request)
    (between : ℕ) (r' : AdminRequest) (other : Bytes)
    → (handle_tokens y admin_token random random' now r id s).0 ≡ minted tok
    → IsAlive later tok
    → Shows tok.token page
    → (u : User) × (get_user id s.users ≡ ok u)
      × (guard later
            (handle_user y admin_token between r' other
              (handle_tokens y admin_token random random' now r id s).1).1.tokens
            page
          ≡ by_bearer (or_bearer_user u.username))
guard-handle_user y admin_token random random' now later r id s tok page between r' other h alive
      shows =
    let s' = (handle_tokens y admin_token random random' now r id s).1 in
    let (u, e, g) =
      guard-handle_tokens y admin_token random random' now later r id s tok page h alive shows in
    (u, e, ap (λ t. guard later t page) (handle_user-tokens y admin_token between r' other s') ∙ g)

error_ne : (e : UserError) → store_error e ≢ no_content
unfolding store_error
error_ne not_found = ground arith
error_ne token_not_found = ground arith
error_ne username_taken = ground arith
error_ne empty_username = ground arith
error_ne empty_password = ground arith

remove_token-lookup :
    (id token_id : Bytes) (s : AdminState) (tok : UserToken) (later : ℕ)
    → get_token id token_id s.users ≡ ok tok
    → (remove_token id token_id s).0 ≡ no_content
    → lookup_token later tok.token (remove_token id token_id s).1.tokens ≡ none
unfolding remove_token
remove_token-lookup id token_id s tok later e h =
    elim (Option-cases (delete_token id token_id s.users).0) [
      | inl d ↦ rw (e, remove_token, d) (lookup_token-revoke_token later tok.token s.tokens)
      | inr (x, d) ↦ absurd (error_ne x (rw (e, remove_token, d) at h))
    ]

-- A token that the endpoint deletes is no longer valid at any time.
pub lookup_token-handle_token_delete :
    (admin_token : Bytes) (r : AdminRequest) (id token_id : Bytes) (s : AdminState)
    (tok : UserToken) (later : ℕ)
    → get_token id token_id s.users ≡ ok tok
    → (handle_token_delete admin_token r id token_id s).0 ≡ no_content
    → lookup_token later tok.token (handle_token_delete admin_token r id token_id s).1.tokens ≡ none
unfolding handle_token_delete
lookup_token-handle_token_delete admin_token r id token_id s tok later e h =
    elim (Bool-cases (is_authorized admin_token r)) [
      | inr a ↦ let q : admin_error 401 ≡ no_content = rw (a, handle_token_delete) at h in cc
      | inl a ↦ elim (Bool-cases (str_eq r.method (codes "DELETE"))) [
        | inr d ↦
            let q : method_not_allowed ≡ no_content = rw (a, handle_token_delete, d) at h in cc
        | inl d ↦
            rw (a, handle_token_delete, d)
              (remove_token-lookup id token_id s tok later e (rw (a, handle_token_delete, d) at h))
      ]
    ]
