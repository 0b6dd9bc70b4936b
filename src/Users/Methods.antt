-- ===== src/Users/Methods.antt =====
-- The methods of the store of users (internal/users/memory.go, store.go, seed.go).
use mock_salesforce.Base.{
  ℕ, zero, suc, ◌+◌, Bool, false, not, ◌&&◌, ◌||◌, Option, none, some, List, [], ◌∷◌, ◌++◌, Bytes,
  codes, is_empty, str_eq, Assoc, lookup, insert, erase, if◌then◌else◌,
}
use mock_salesforce.Base.Int.{ℤ, pos, negsuc}
use mock_salesforce.Users.Types.{
  User, UserPatch, UserToken, UserStore, UserError, not_found, token_not_found, username_taken,
  empty_username, empty_password, Fallible, ok, err, Packages, new_id, new_token, hash_password,
}

abbrev pub user_values : Assoc User → List User
user_values [] = []
user_values ((id, u) ∷ m) = u ∷ user_values m

-- `ListUsers`
unfoldable pub list_users : Packages → UserStore → List User
list_users y s = y.sort_users (user_values (y.walk s.users))

unfoldable pub get_user : Bytes → UserStore → Fallible User
unfolding lookup
get_user id s = elim (lookup id s.users) [ none ↦ err not_found | some u ↦ ok u ]

-- The first user with a name, in the order of a walk.
unfoldable pub first_named : Bytes → Assoc User → Fallible User
unfolding str_eq
first_named username [] = err not_found
first_named username ((id, u) ∷ m) =
    if str_eq u.username username then ok u else first_named username m

unfoldable pub get_user_by_username : Packages → Bytes → UserStore → Fallible User
unfolding first_named
get_user_by_username y username s = first_named username (y.walk s.users)

-- Some user has the name, in whatever order the loop visits them.
unfoldable pub is_taken : Bytes → Assoc User → Bool
unfolding str_eq
is_taken username [] = false
is_taken username ((id, u) ∷ m) = str_eq u.username username || is_taken username m

-- Some user with another ID has the name.
unfoldable pub is_taken_by_other : Bytes → Bytes → Assoc User → Bool
unfolding str_eq
is_taken_by_other id username [] = false
is_taken_by_other id username ((k, u) ∷ m) =
    not (str_eq u.id id) && str_eq u.username username || is_taken_by_other id username m

-- The user that `CreateUser` makes.
unfoldable pub made_user : Packages → Option Bytes → ℕ → Bytes → Bytes → Bytes → Bytes → User
unfolding new_id hash_password
made_user y random now username name email password = record {
  id = new_id y (codes "usr") random;
  username = username;
  name = name;
  email = email;
  password_hash = hash_password y password;
  created_at = now;
  updated_at = now;
}

-- `CreateUser`
unfoldable pub create_user :
    Packages
    → Option Bytes
    → ℕ
    → Bytes
    → Bytes
    → Bytes
    → Bytes
    → UserStore
    → Fallible User × UserStore
unfolding is_empty is_taken made_user insert
create_user y random now username name email password s =
    let u = made_user y random now username name email password in
    if is_empty username
    then (err empty_username, s)
    else if is_empty password
    then (err empty_password, s)
    else if is_taken username s.users
    then (err username_taken, s)
    else (ok u, record s { users = insert u.id u s.users })

abbrev pub or_old : Option Bytes → Bytes → Bytes
or_old none old = old
or_old (some new) old = new

-- `patch.Password != nil && *patch.Password != ""`
unfoldable pub new_hash : Packages → Option Bytes → Bytes → Bytes
unfolding is_empty hash_password
new_hash y none old = old
new_hash y (some password) old = if is_empty password then old else hash_password y password

-- The user after the patch.
unfoldable pub patched : Packages → ℕ → UserPatch → User → User
unfolding new_hash
patched y now patch u = record u {
  username = or_old patch.username u.username;
  name = or_old patch.name u.name;
  email = or_old patch.email u.email;
  password_hash = new_hash y patch.password u.password_hash;
  updated_at = now;
}

-- The name of a patch is new, and another user has it.
unfoldable pub is_conflict : Bytes → Option Bytes → User → Assoc User → Bool
unfolding str_eq is_taken_by_other
is_conflict id none u users = false
is_conflict id (some username) u users =
    not (str_eq username u.username) && is_taken_by_other id username users

-- `UpdateUser`
unfoldable pub update_user :
    Packages → ℕ → Bytes → UserPatch → UserStore → Fallible User × UserStore
unfolding lookup insert patched is_conflict
update_user y now id patch s = elim (lookup id s.users) [
  | none ↦ (err not_found, s)
  | some u ↦ if is_conflict id patch.username u s.users then (err username_taken, s) else (
    ok (patched y now patch u),
    record s { users = insert id (patched y now patch u) s.users },
  )
]

-- `DeleteUser`
unfoldable pub delete_user : Bytes → UserStore → Option UserError × UserStore
unfolding lookup erase
delete_user id s = elim (lookup id s.users) [
  | none ↦ (some not_found, s)
  | some _ ↦ (none, record { users = erase id s.users; tokens = erase id s.tokens })
]

abbrev pub or_no_tokens : Option (List UserToken) → List UserToken
or_no_tokens none = []
or_no_tokens (some ts) = ts

unfoldable pub list_tokens : Bytes → UserStore → Fallible (List UserToken)
unfolding lookup
list_tokens user_id s = elim (lookup user_id s.users) [
  | none ↦ err not_found
  | some _ ↦ ok (or_no_tokens (lookup user_id s.tokens))
]

-- `if ttl > 0 { t.ExpiresAt = now.Add(ttl) }`
abbrev pub expiry : ℕ → ℤ → Option ℕ
expiry now (pos zero) = none
expiry now (pos (suc n)) = some (now + suc n)
expiry now (negsuc n) = none

-- The token that `CreateToken` makes, with the random bytes of the ID and of the token, and the time
-- to live in nanoseconds.
unfoldable pub made_token :
    Packages → Option Bytes → Option Bytes → ℕ → Bytes → Bytes → ℤ → UserToken
unfolding new_id new_token
made_token y random random' now user_id label ttl = record {
  id = new_id y (codes "tok") random;
  user_id = user_id;
  token = new_token y random';
  label = label;
  created_at = now;
  last_used_at = none;
  expires_at = expiry now ttl;
}

-- `CreateToken`
unfoldable pub create_token :
    Packages
    → Option Bytes
    → Option Bytes
    → ℕ
    → Bytes
    → Bytes
    → ℤ
    → UserStore
    → Fallible UserToken × UserStore
unfolding lookup insert made_token
create_token y random random' now user_id label ttl s = elim (lookup user_id s.users) [
  | none ↦ (err not_found, s)
  | some _ ↦
      let t = made_token y random random' now user_id label ttl in
      (
        ok t,
        record s {
          tokens = insert user_id (or_no_tokens (lookup user_id s.tokens) ++ (t ∷ [])) s.tokens;
        },
      )
]

unfoldable pub find_token : Bytes → List UserToken → Fallible UserToken
unfolding str_eq
find_token id [] = err token_not_found
find_token id (t ∷ ts) = if str_eq t.id id then ok t else find_token id ts

-- `GetToken`
unfoldable pub get_token : Bytes → Bytes → UserStore → Fallible UserToken
unfolding lookup find_token
get_token user_id id s = find_token id (or_no_tokens (lookup user_id s.tokens))

-- The list without the first token with the ID, if there is one.
unfoldable pub without_token : Bytes → List UserToken → Option (List UserToken)
unfolding str_eq
without_token id [] = none
without_token id (t ∷ ts) =
    let rest = without_token id ts in
    if str_eq t.id id then some ts else elim rest [ none ↦ none | some kept ↦ some (t ∷ kept) ]

-- `DeleteToken`
unfoldable pub delete_token : Bytes → Bytes → UserStore → Option UserError × UserStore
unfolding lookup insert without_token
delete_token user_id id s = elim (without_token id (or_no_tokens (lookup user_id s.tokens))) [
  | none ↦ (some token_not_found, s)
  | some kept ↦ (none, record s { tokens = insert user_id kept s.tokens })
]

unfoldable pub token_values : Assoc (List UserToken) → List UserToken
token_values [] = []
token_values ((id, ts) ∷ m) = ts ++ token_values m

-- `AllTokens`
unfoldable pub all_tokens : Packages → UserStore → List UserToken
unfolding token_values
all_tokens y s = token_values (y.walk_tokens s.tokens)

-- `VerifyPassword`
unfoldable pub verify_password : Packages → Bytes → Bytes → UserStore → Option User
unfolding get_user_by_username hash_password str_eq
verify_password y username password s = elim (get_user_by_username y username s) [
  | err _ ↦ none
  | ok u ↦ if str_eq u.password_hash (hash_password y password) then some u else none
]

-- `SeedFromMap`, with the random bytes of each user that is created; the first error ends the loop.
unfoldable pub seed_from_map :
    Packages → ℕ → List (Option Bytes × (Bytes × Bytes)) → UserStore → Option UserError × UserStore
unfolding get_user_by_username create_user
seed_from_map y now [] s = (none, s)
seed_from_map y now ((random, (username, password)) ∷ rest) s =
    elim (get_user_by_username y username s) [
      | ok _ ↦ seed_from_map y now rest s
      | err _ ↦
          let made = create_user y random now username [] username password s in
          elim made.0 [ err e ↦ (some e, made.1) | ok _ ↦ seed_from_map y now rest made.1 ]
    ]
