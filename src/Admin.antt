-- ===== src/Admin.antt =====
-- The admin endpoints for users and their tokens (internal/handlers/admin_users.go). A request carries
-- what the handlers read of it, with the body as `json.Decoder` decodes it, `none` with an error.
pub mod Lifetime
pub mod Minted
pub mod Withdrawn
mod Tests
use mock_salesforce.Base.{
  ℕ, ◌+◌, ◌-◌, ◌*◌, Bool, true, false, not, Option, none, some, List, [], ◌∷◌, Bytes, codes,
  is_empty, str_eq, if◌then◌else◌,
}
use mock_salesforce.Base.Int.{ℤ}
use mock_salesforce.Auth.Tokens.{Tokens, TokenInfo, register_token_info, revoke_token}
use mock_salesforce.Auth.Endpoint.{unix}
use mock_salesforce.Users.{
  User, UserPatch, UserToken, UserStore, UserError, not_found, token_not_found, username_taken,
  empty_username, empty_password, Fallible, ok, err, Packages, list_users, get_user, create_user,
  update_user, delete_user, list_tokens, create_token, get_token, delete_token,
}
use mock_salesforce.Admin.Lifetime.{seconds}

pub record CreateUserRequest : Type 0 where
  pub username : Bytes
  pub name : Bytes
  pub email : Bytes
  pub password : Bytes

pub record MintTokenRequest : Type 0 where
  pub label : Bytes
  pub ttl_seconds : ℤ

pub record AdminRequest : Type 0 where
  pub method : Bytes
  -- the header X-Admin-Token
  pub admin_token : Bytes
  pub create_body : Option CreateUserRequest
  pub update_body : Option UserPatch
  pub mint_body : Option MintTokenRequest

-- What a handler writes: an error with its status, a plain text error, JSON, or no content.
pub data AdminReply : Type 0 where
  admin_error : ℕ → AdminReply
  method_not_allowed no_content : AdminReply
  users_json : List User → AdminReply
  user_json : ℕ → User → AdminReply
  tokens_json : List UserToken → AdminReply
  minted : UserToken → AdminReply

-- The users, and the table of tokens.
pub record AdminState : Type 0 where
  pub users : UserStore
  pub tokens : Tokens

-- `authorize`
unfoldable pub is_authorized : Bytes → AdminRequest → Bool
unfolding is_empty str_eq
is_authorized admin_token r =
    if is_empty admin_token then false else str_eq r.admin_token admin_token

-- The status that `writeStoreError` writes.
unfoldable pub store_error : UserError → AdminReply
store_error not_found = admin_error 404
store_error token_not_found = admin_error 404
store_error username_taken = admin_error 409
store_error empty_username = admin_error 400
store_error empty_password = admin_error 400

abbrev pub with_users : AdminState → UserStore → AdminState
with_users s users = record s { users = users }

-- What an error or a value of the store of users comes to.
abbrev pub reply_or_error {ℓ} : {A : Type ℓ} → Fallible A → (A → AdminReply) → AdminReply
reply_or_error (ok a) f = f a
reply_or_error (err e) f = store_error e

abbrev pub no_content_or_error : Option UserError → AdminReply
no_content_or_error none = no_content
no_content_or_error (some e) = store_error e

-- `createUser`, with the random bytes of the ID.
unfoldable pub create_user_handler :
    Packages → Option Bytes → ℕ → AdminRequest → AdminState → AdminReply × AdminState
unfolding create_user store_error
create_user_handler y random now r s = elim r.create_body [
  | none ↦ (admin_error 400, s)
  | some b ↦
      let made = create_user y random now b.username b.name b.email b.password s.users in
      (reply_or_error made.0 (user_json 201), with_users s made.1)
]

-- `updateUser`
unfoldable pub update_user_handler :
    Packages → ℕ → AdminRequest → Bytes → AdminState → AdminReply × AdminState
unfolding update_user store_error
update_user_handler y now r id s = elim r.update_body [
  | none ↦ (admin_error 400, s)
  | some patch ↦
      let updated = update_user y now id patch s.users in
      (reply_or_error updated.0 (user_json 200), with_users s updated.1)
]

abbrev pub unix_or_zero : Option ℕ → ℕ
unix_or_zero none = 0
unix_or_zero (some t) = unix t

-- The entry that `mintToken` registers.
unfoldable pub minted_info : User → UserToken → TokenInfo
minted_info u tok = record {
  token = tok.token;
  kind = codes "access";
  username = u.username;
  user_id = u.id;
  client_id = codes "admin-cli";
  scope = codes "admin user-token";
  issued_at = unix tok.created_at;
  expires_at = unix_or_zero tok.expires_at;
  refresh = [];
  family = [];
  revoked = false;
}

-- `mintToken`, with the random bytes of the ID and of the token.
unfoldable pub mint_token :
    Packages
    → Option Bytes
    → Option Bytes
    → ℕ
    → AdminRequest
    → Bytes
    → AdminState
    → AdminReply × AdminState
unfolding get_user create_token minted_info register_token_info seconds store_error
mint_token y random random' now r id s = elim r.mint_body [
  | none ↦ (admin_error 400, s)
  | some b ↦ elim (get_user id s.users) [
    | err e ↦ (store_error e, s)
    | ok u ↦
        let made = create_token y random random' now id b.label (seconds b.ttl_seconds) s.users in
        elim made.0 [
          | err e ↦ (store_error e, with_users s made.1)
          | ok tok ↦ (
            minted tok,
            record { users = made.1; tokens = register_token_info (minted_info u tok) s.tokens },
          )
        ]
  ]
]

-- `HandleUsers`
unfoldable pub handle_users :
    Packages → Bytes → Option Bytes → ℕ → AdminRequest → AdminState → AdminReply × AdminState
unfolding is_authorized str_eq list_users create_user_handler
handle_users y admin_token random now r s =
    if not (is_authorized admin_token r)
    then (admin_error 401, s)
    else if str_eq r.method (codes "GET")
    then (users_json (list_users y s.users), s)
    else if str_eq r.method (codes "POST")
    then create_user_handler y random now r s
    else (method_not_allowed, s)

-- `HandleUser`
unfoldable pub handle_user :
    Packages → Bytes → ℕ → AdminRequest → Bytes → AdminState → AdminReply × AdminState
unfolding is_authorized str_eq get_user update_user_handler delete_user store_error
handle_user y admin_token now r id s =
    if not (is_authorized admin_token r)
    then (admin_error 401, s)
    else if str_eq r.method (codes "GET")
    then (reply_or_error (get_user id s.users) (user_json 200), s)
    else if str_eq r.method (codes "PATCH")
    then update_user_handler y now r id s
    else if str_eq r.method (codes "DELETE")
    then (let deleted = delete_user id s.users in
        (no_content_or_error deleted.0, with_users s deleted.1))
    else (method_not_allowed, s)

-- `HandleTokens`
unfoldable pub handle_tokens :
    Packages
    → Bytes
    → Option Bytes
    → Option Bytes
    → ℕ
    → AdminRequest
    → Bytes
    → AdminState
    → AdminReply × AdminState
unfolding is_authorized str_eq list_tokens mint_token store_error
handle_tokens y admin_token random random' now r id s =
    if not (is_authorized admin_token r)
    then (admin_error 401, s)
    else if str_eq r.method (codes "GET")
    then (reply_or_error (list_tokens id s.users) tokens_json, s)
    else if str_eq r.method (codes "POST")
    then mint_token y random random' now r id s
    else (method_not_allowed, s)

-- The part of `HandleToken` after the guards.
unfoldable pub remove_token : Bytes → Bytes → AdminState → AdminReply × AdminState
unfolding get_token delete_token revoke_token store_error
remove_token id token_id s = elim (get_token id token_id s.users) [
  | err e ↦ (store_error e, s)
  | ok tok ↦
      let deleted = delete_token id token_id s.users in
      elim deleted.0 [
        | some e ↦ (store_error e, with_users s deleted.1)
        | none ↦
            (no_content, record { users = deleted.1; tokens = (revoke_token tok.token s.tokens).1 })
      ]
]

-- `HandleToken`
unfoldable pub handle_token_delete :
    Bytes → AdminRequest → Bytes → Bytes → AdminState → AdminReply × AdminState
unfolding is_authorized str_eq remove_token
handle_token_delete admin_token r id token_id s =
    if not (is_authorized admin_token r)
    then (admin_error 401, s)
    else if not (str_eq r.method (codes "DELETE"))
    then (method_not_allowed, s)
    else remove_token id token_id s
