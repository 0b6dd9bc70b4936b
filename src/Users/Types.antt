-- ===== src/Users/Types.antt =====
-- The records of users and tokens, and fresh identifiers (internal/users/store.go, ids.go).
use mock_salesforce.Base.{ℕ, Option, none, some, List, [], ◌++◌, Bytes, codes, Assoc}

pub record User : Type 0 where
  pub id : Bytes
  pub username : Bytes
  pub name : Bytes
  pub email : Bytes
  pub password_hash : Bytes
  pub created_at : ℕ
  pub updated_at : ℕ

pub record UserPatch : Type 0 where
  pub username : Option Bytes
  pub name : Option Bytes
  pub email : Option Bytes
  pub password : Option Bytes

-- `Token`
pub record UserToken : Type 0 where
  pub id : Bytes
  pub user_id : Bytes
  pub token : Bytes
  pub label : Bytes
  pub created_at : ℕ
  pub last_used_at : Option ℕ
  pub expires_at : Option ℕ

pub record UserStore : Type 0 where
  pub users : Assoc User
  pub tokens : Assoc (List UserToken)

unfoldable pub new_user_store : UserStore
new_user_store = record { users = []; tokens = [] }

pub data UserError : Type 0 where
  not_found token_not_found username_taken empty_username empty_password : UserError

-- A value, or an error.
pub data Fallible {ℓ} (A : Type ℓ) : Type ℓ where
  ok : A → Fallible A
  err : UserError → Fallible A

-- Go's packages: `base64.RawURLEncoding.EncodeToString`, `sha256.Sum256`, `hex.EncodeToString`, the
-- order in which a map of users is walked, that of the token lists, and `sort.Slice` by username.
pub record Packages : Type 0 where
  pub base64 : Bytes → Bytes
  pub sha256 : Bytes → Bytes
  pub hex : Bytes → Bytes
  pub walk : Assoc User → Assoc User
  pub walk_tokens : Assoc (List UserToken) → Assoc (List UserToken)
  pub sort_users : List User → List User

-- `newID`, on what `rand.Read` gives, `none` with an error.
unfoldable pub new_id : Packages → Bytes → Option Bytes → Bytes
new_id y prefix none = prefix ++ codes "_000000000000"
new_id y prefix (some random) = prefix ++ codes "_" ++ y.base64 random

-- `newToken`
unfoldable pub new_token : Packages → Option Bytes → Bytes
new_token y none = codes "00Dxx0000001gPq!000000000000000000000000"
new_token y (some random) = codes "00Dxx0000001gPq!" ++ y.base64 random

unfoldable pub hash_password : Packages → Bytes → Bytes
hash_password y password = y.hex (y.sha256 password)
