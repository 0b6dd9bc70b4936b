-- ===== src/Admin/Tests.antt =====
-- The laws of users, of their passwords and of minted tokens at concrete stores.
use mock_salesforce.Base.{
  zero, ◌+◌, ◌*◌, ◌<◌, ◌≤◌, ◌≡◌, ◌↔◌, refl, ap, inl, inr, Bool-cases, none, some, List, [], ◌∷◌,
  Bytes, codes, str_eq, str_eq_iff, lookup, insert, is_empty, starts_with, if◌then◌else◌,
}
use mock_salesforce.Base.Int.{pos}
use mock_salesforce.Auth.Tokens.{lookup_token, bare_token}
use mock_salesforce.Auth.Guard.{Request, by_bearer, guard, is_open_path, or_bearer_user}
use mock_salesforce.Users.{
  User, UserPatch, UserToken, UserStore, ok, new_user_store, Packages, made_user, made_token,
  create_user, hash_password, verify_password, get_user, get_token, new_id, new_token, create_token,
  expiry, delete_token, find_token, without_token, is_taken,
}
use mock_salesforce.Users.Names.{IsNamed}
use mock_salesforce.Users.Runs.{
  Operation, user_created, user_updated, user_deleted, run, run-IsNamed,
}
use mock_salesforce.Users.Passwords.{
  IsIn, HasPassword, verify_password_iff, verify_password-create_user,
}
use mock_salesforce.Admin.{
  AdminRequest, AdminState, admin_error, handle_users, handle_user, handle_tokens,
  handle_token_delete, is_authorized, mint_token, remove_token,
}
use mock_salesforce.Admin.Lifetime.{seconds, expiry-seconds}
use mock_salesforce.Admin.Withdrawn.{
  admin-IsRefused, guard-handle_user, lookup_token-handle_token_delete,
}

abbrev packages : Packages
packages = record {
  base64 = λ s. s;
  sha256 = λ s. s;
  hex = λ s. s;
  walk = λ m. m;
  walk_tokens = λ m. m;
  sort_users = λ us. us;
}

abbrev rename : UserPatch
rename = record { username = some (codes "bob"); name = none; email = none; password = none }

abbrev operations : List Operation
operations =
    user_created (some (codes "1")) 5 (codes "ann") [] [] (codes "pw")
    ∷ user_created (some (codes "2")) 6 (codes "bob") [] [] (codes "pw")
    ∷ user_updated 7 (codes "usr_1") rename
    ∷ user_deleted (codes "usr_2")
    ∷ []

run-IsNamed_example : IsNamed (run packages operations new_user_store).users
run-IsNamed_example = run-IsNamed packages operations

abbrev ann : User
ann = made_user packages (some (codes "1")) 5 (codes "ann") [] [] (codes "pw")

abbrev with_ann : UserStore
with_ann = record { users = (codes "usr_1", ann) ∷ []; tokens = [] }

single : (k j : Bytes) (u v : User) → IsIn j v ((k, u) ∷ []) ↔ (lookup j ((k, u) ∷ []) ≡ some v)
unfolding lookup
single k j u v = (
  λ i. elim i [ inl (h, q) ↦ rw ((str_eq_iff k j).1 h) (ap some q) | inr x ↦ absurd x ],
  λ e. elim (Bool-cases (str_eq k j)) [
    | inl h ↦ let q : some u ≡ some v = rw h at e in inl ((str_eq_iff k j).0 h, cc)
    | inr h ↦ let q : none ≡ some v = rw h at e in cc
  ],
)

with_ann-IsNamed : IsNamed with_ann.users
unfolding is_empty is_taken new_id made_user insert create_user new_user_store
with_ann-IsNamed =
    run-IsNamed packages (user_created (some (codes "1")) 5 (codes "ann") [] [] (codes "pw") ∷ [])

verify_password_iff_example :
    (verify_password packages (codes "ann") (codes "pw") with_ann ≡ some ann)
    ↔ HasPassword packages (codes "ann") (codes "pw") with_ann ann
verify_password_iff_example =
    verify_password_iff packages (codes "ann") (codes "pw") with_ann ann
      (λ j v. single (codes "usr_1") j ann v) with_ann-IsNamed

verify_password-create_user_example :
    verify_password packages
      (codes "ann")
      (codes "no")
      (create_user packages (some (codes "1")) 5 (codes "ann") [] [] (codes "pw") new_user_store).1
    ≡ (if str_eq (hash_password packages (codes "pw")) (hash_password packages (codes "no"))
        then some ann
        else none)
unfolding create_user is_empty is_taken new_user_store insert made_user
verify_password-create_user_example =
    verify_password-create_user packages (some (codes "1")) 5 (codes "ann") [] [] (codes "pw")
      (codes "no") new_user_store ann (λ j v. single (codes "usr_1") j ann v)
      (run-IsNamed packages []) refl

expiry-seconds_example :
    ((0 < 60) → (60 ≤ 9223372036) → expiry 7 (seconds (pos 60)) ≡ some (7 + 60 * 1000000000))
    × ((9223372036 < 60) → (60 ≤ 18446744073) → expiry 7 (seconds (pos 60)) ≡ none)
expiry-seconds_example = expiry-seconds 7 60

abbrev posted : AdminRequest
posted = record {
  method = codes "POST";
  admin_token = codes "key";
  create_body = none;
  update_body = none;
  mint_body = some (record { label = codes "ci"; ttl_seconds = pos zero });
}

abbrev state : AdminState
state = record { users = with_ann; tokens = [] }

abbrev minted_token : UserToken
minted_token =
    made_token packages (some (codes "8")) (some (codes "9")) 11 (codes "usr_1") (codes "ci")
      (pos zero)

abbrev page : Request
page = record {
  path = codes "/services/data/v66.0/query";
  raw_query = [];
  authorization = codes "Bearer 00Dxx0000001gPq!9";
  accept = [];
  session = none;
  falcon_return = [];
}

abbrev deletion : AdminRequest
deletion = record posted { method = codes "DELETE" }

guard-handle_user_example :
    (u : User) × (get_user (codes "usr_1") with_ann ≡ ok u)
    × (guard 90
          (handle_user packages
            (codes "key")
            50
            deletion
            (codes "usr_1")
            (handle_tokens packages
              (codes "key")
              (some (codes "8"))
              (some (codes "9"))
              11
              posted
              (codes "usr_1")
              state).1).1.tokens
          page
        ≡ by_bearer (or_bearer_user u.username))
unfolding handle_tokens is_authorized is_empty str_eq mint_token get_user lookup create_token
    seconds made_token new_token starts_with is_open_path
guard-handle_user_example =
    guard-handle_user packages (codes "key") (some (codes "8")) (some (codes "9")) 11 90 posted
      (codes "usr_1") state minted_token page 50 deletion (codes "usr_1") refl (inl refl)
      (refl, refl, refl)

admin-IsRefused_example :
    (handle_users packages [] none 5 posted state ≡ (admin_error 401, state))
    × (handle_user packages [] 5 posted (codes "usr_1") state ≡ (admin_error 401, state))
    × (handle_tokens packages [] none none 5 posted (codes "usr_1") state
        ≡ (admin_error 401, state))
    × (handle_token_delete [] posted (codes "usr_1") (codes "tok_8") state
        ≡ (admin_error 401, state))
admin-IsRefused_example =
    admin-IsRefused packages [] none none 5 posted (codes "usr_1") (codes "tok_8") state (inl refl)

abbrev holding : AdminState
holding = record {
  users = record with_ann { tokens = (codes "usr_1", minted_token ∷ []) ∷ [] };
  tokens = (codes "00Dxx0000001gPq!9", bare_token (codes "00Dxx0000001gPq!9")) ∷ [];
}

lookup_token-handle_token_delete_example :
    lookup_token 90
      (codes "00Dxx0000001gPq!9")
      (handle_token_delete (codes "key") deletion (codes "usr_1") (codes "tok_8") holding).1.tokens
    ≡ none
unfolding handle_token_delete is_authorized is_empty str_eq remove_token get_token find_token
    made_token new_id new_token lookup delete_token without_token
lookup_token-handle_token_delete_example =
    lookup_token-handle_token_delete (codes "key") deletion (codes "usr_1") (codes "tok_8") holding
      minted_token 90 refl refl
