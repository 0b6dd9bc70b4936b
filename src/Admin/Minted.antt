-- ===== src/Admin/Minted.antt =====
-- Minted tokens at the guard (internal/handlers/admin_users.go, internal/server/middleware/auth.go).
use mock_salesforce.Base.{
  ℕ, ◌<◌, ◌≡◌, ◌≢◌, ◌⊎◌, refl, sym, ap, ◌∙◌, inl, inr, Bool-cases, Option-cases, true, false, ◌&&◌,
  Option, none, some, List, ◌++◌, Bytes, codes, is_empty, str_eq, str_eq_refl, starts_with, drop,
  lookup, lookup-insert, arith, ltb, leb,
}
use mock_salesforce.Auth.Tokens.{
  Tokens, TokenInfo, register_token_info, lookup_token, if_valid, is_expired,
}
use mock_salesforce.Auth.Guard.{
  Request, by_bearer, guard, is_open_path, bearer_entry, or_bearer_user,
}
use mock_salesforce.Users.{
  User, UserToken, UserStore, UserError, not_found, token_not_found, username_taken, empty_username,
  empty_password, Fallible, ok, err, list_tokens, Packages, new_token, get_user, create_token,
  made_token,
}
use mock_salesforce.Admin.{
  AdminRequest, AdminState, admin_error, method_not_allowed, tokens_json, reply_or_error,
  is_authorized, minted, store_error, minted_info, mint_token, handle_tokens, unix_or_zero,
}
use mock_salesforce.Admin.Lifetime.{seconds}
use mock_salesforce.Base.Int.{ℤ}
use mock_salesforce.Base.Search.{starts_with-append}

get_user_ok :
    (id : Bytes) (s : UserStore) (u : User) → lookup id s.users ≡ some u → get_user id s ≡ ok u
unfolding get_user
get_user_ok id s u e = rw (e, get_user) refl

create_token_ok :
    (y : Packages) (random random' : Option Bytes) (now : ℕ) (id label : Bytes) (ttl : ℤ)
    (s : UserStore) (u : User)
    → lookup id s.users ≡ some u
    → (create_token y random random' now id label ttl s).0
      ≡ ok (made_token y random random' now id label ttl)
unfolding create_token
create_token_ok y random random' now id label ttl s u e = rw (e, create_token) refl

-- The user of a minted token, and the table with the token's entry.
abbrev pub IsMint : Packages → Option Bytes → Bytes → AdminState → UserToken → Tokens → Type 0
IsMint y random' id s tok tokens =
    (u : User) × (get_user id s.users ≡ ok u)
    × (tok.token ≡ new_token y random')
    × (tokens ≡ register_token_info (minted_info u tok) s.tokens)

pub mint_token-IsMint :
    (y : Packages) (random random' : Option Bytes) (now : ℕ) (r : AdminRequest) (id : Bytes)
    (s : AdminState) (tok : UserToken)
    → (mint_token y random random' now r id s).0 ≡ minted tok
    → IsMint y random' id s tok (mint_token y random random' now r id s).1.tokens
unfolding mint_token store_error made_token get_user
mint_token-IsMint y random random' now r id s tok h = elim (Option-cases r.mint_body) [
  | inl e ↦ let q : admin_error 400 ≡ minted tok = rw (e, mint_token) at h in cc
  | inr (b, e) ↦ elim (Option-cases (lookup id s.users.users)) [
    | inl f ↦ let q : admin_error 404 ≡ minted tok = rw (e, mint_token, get_user, f) at h in cc
    | inr (u, f) ↦
        let made = made_token y random random' now id b.label (seconds b.ttl_seconds) in
        let g =
          create_token_ok y random random' now id b.label (seconds b.ttl_seconds) s.users u f in
        let q : minted made ≡ minted tok = rw (e, mint_token, get_user_ok id s.users u f, g) at h in
        let same : made ≡ tok = cc in
        (
          u,
          get_user_ok id s.users u f,
          sym (ap (λ x. x.token) same),
          rw (e, mint_token, get_user_ok id s.users u f, g)
              (ap (λ x. register_token_info (minted_info u x) s.tokens) same),
        )
  ]
]

new_token_blank : (y : Packages) (random : Option Bytes) → is_empty (new_token y random) ≡ false
unfolding new_token is_empty
new_token_blank y none = refl
new_token_blank y (some random) = refl

-- The clock, in seconds, is before the end of the token's life, if it ends.
abbrev pub IsAlive : ℕ → UserToken → Type 0
IsAlive later tok = (unix_or_zero tok.expires_at ≡ 0) ⊎ (later < unix_or_zero tok.expires_at)

alive_lem : (later end : ℕ) → (end ≡ 0) ⊎ (later < end) → (ltb 0 end && leb end later) ≡ false
alive_lem later end h = ground arith

registered_lem :
    (later : ℕ) (u : User) (tok : UserToken) (s : Tokens)
    → is_empty tok.token ≡ false
    → IsAlive later tok
    → lookup_token later tok.token (register_token_info (minted_info u tok) s)
      ≡ some (minted_info u tok)
unfolding lookup_token register_token_info minted_info if_valid is_expired
registered_lem later u tok s n alive =
    rw
      (
        n,
        lookup-insert tok.token tok.token (minted_info u tok) s,
        str_eq_refl tok.token,
        alive_lem later (unix_or_zero tok.expires_at) alive,
      )
      refl

-- The request shows the token to a route that is not open, without a session.
abbrev pub Shows : Bytes → Request → Type 0
Shows token r =
    (is_open_path r.path ≡ false)
    × (r.session ≡ none)
    × (r.authorization ≡ codes "Bearer " ++ token)

guard-Shows :
    (later : ℕ) (token : Bytes) (s : Tokens) (r : Request) (info : TokenInfo)
    → Shows token r
    → lookup_token later token s ≡ some info
    → str_eq info.kind (codes "refresh") ≡ false
    → guard later s r ≡ by_bearer (or_bearer_user info.username)
unfolding guard bearer_entry
guard-Shows later token s r info (closed, none_there, shown) e k =
    let starts : starts_with r.authorization (codes "Bearer ") ≡ true =
      ap (λ a. starts_with a (codes "Bearer ")) shown
      ∙ starts_with-append (codes "Bearer ") token in
    let found : lookup_token later (drop 7 r.authorization) s ≡ some info =
      ap (λ a. lookup_token later (drop 7 a) s) shown ∙ e in
    rw (closed, guard, none_there, starts, found, bearer_entry, k) refl

store_error_ne : (e : UserError) (tok : UserToken) → store_error e ≢ minted tok
unfolding store_error
store_error_ne not_found tok = ground arith
store_error_ne token_not_found tok = ground arith
store_error_ne username_taken tok = ground arith
store_error_ne empty_username tok = ground arith
store_error_ne empty_password tok = ground arith

tokens_json_ne :
    (x : Fallible (List UserToken)) (tok : UserToken) → reply_or_error x tokens_json ≢ minted tok
tokens_json_ne (ok ts) tok = ground arith
tokens_json_ne (err e) tok = store_error_ne e tok

-- A POST of an authorized request is what mints.
minting :
    (y : Packages) (admin_token : Bytes) (random random' : Option Bytes) (now : ℕ)
    (r : AdminRequest) (id : Bytes) (s : AdminState) (tok : UserToken)
    → (handle_tokens y admin_token random random' now r id s).0 ≡ minted tok
    → handle_tokens y admin_token random random' now r id s ≡ mint_token y random random' now r id s
unfolding handle_tokens
minting y admin_token random random' now r id s tok h =
    elim (Bool-cases (is_authorized admin_token r)) [
      | inr a ↦ let q : admin_error 401 ≡ minted tok = rw (a, handle_tokens) at h in cc
      | inl a ↦ elim (Bool-cases (str_eq r.method (codes "GET"))) [
        | inl g ↦
            absurd (tokens_json_ne (list_tokens id s.users) tok (rw (a, handle_tokens, g) at h))
        | inr g ↦ elim (Bool-cases (str_eq r.method (codes "POST"))) [
          | inl p ↦ rw (a, handle_tokens, g, p) refl
          | inr p ↦ let q : method_not_allowed ≡ minted tok = rw (a, handle_tokens, g, p) at h in cc
        ]
      ]
    ]

-- A token that the endpoint mints is accepted by the guard until it expires, as its user's.
pub guard-handle_tokens :
    (y : Packages) (admin_token : Bytes) (random random' : Option Bytes) (now later : ℕ)
    (r : AdminRequest) (id : Bytes) (s : AdminState) (tok : UserToken) (page : Request)
    → (handle_tokens y admin_token random random' now r id s).0 ≡ minted tok
    → IsAlive later tok
    → Shows tok.token page
    → (u : User) × (get_user id s.users ≡ ok u)
      × (guard later (handle_tokens y admin_token random random' now r id s).1.tokens page
          ≡ by_bearer (or_bearer_user u.username))
unfolding minted_info str_eq
guard-handle_tokens y admin_token random random' now later r id s tok page h alive shows =
    let m = minting y admin_token random random' now r id s tok h in
    let (u, e, t, tokens) =
      mint_token-IsMint y random random' now r id s tok (sym (ap (λ x. x.0) m) ∙ h) in
    let full : is_empty tok.token ≡ false = ap is_empty t ∙ new_token_blank y random' in
    (
      u,
      e,
      ap (λ x. guard later x.1.tokens page) m
          ∙ ap (λ x. guard later x page) tokens
          ∙ guard-Shows later tok.token (register_token_info (minted_info u tok) s.tokens) page
              (minted_info u tok) shows (registered_lem later u tok s.tokens full alive) refl,
    )
