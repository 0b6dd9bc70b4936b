-- ===== src/Users/Runs.antt =====
-- The store of users over runs of its operations (internal/users/memory.go).
use mock_salesforce.Base.{
  ℕ, ◌≡◌, refl, sym, inl, inr, Option-cases, Option, List, [], ◌∷◌, Bytes, lookup, arith, subst,
}
use mock_salesforce.Base.Int.{ℤ}
use mock_salesforce.Users.Types.{UserPatch, UserStore, Packages, new_user_store}
use mock_salesforce.Users.Methods.{
  create_user, update_user, delete_user, create_token, delete_token, without_token, or_no_tokens,
}
use mock_salesforce.Users.Names.{IsNamed, erase-IsNamed, create_user-IsNamed, update_user-IsNamed}

delete_user-IsNamed :
    (id : Bytes) (s : UserStore) → IsNamed s.users → IsNamed (delete_user id s).1.users
unfolding delete_user
delete_user-IsNamed id s v = elim (Option-cases (lookup id s.users)) [
  | inl e ↦ rw (e, delete_user) v
  | inr (u, e) ↦ rw (e, delete_user) (erase-IsNamed id s.users v)
]

create_token-users :
    (y : Packages) (random random' : Option Bytes) (now : ℕ) (id label : Bytes) (ttl : ℤ)
    (s : UserStore)
    → (create_token y random random' now id label ttl s).1.users ≡ s.users
unfolding create_token
create_token-users y random random' now id label ttl s = elim (Option-cases (lookup id s.users)) [
  | inl e ↦ rw (e, create_token) refl
  | inr (u, e) ↦ rw (e, create_token) refl
]

delete_token-users :
    (id token : Bytes) (s : UserStore) → (delete_token id token s).1.users ≡ s.users
unfolding delete_token
delete_token-users id token s =
    elim (Option-cases (without_token token (or_no_tokens (lookup id s.tokens)))) [
      | inl e ↦ rw (e, delete_token) refl
      | inr (ts, e) ↦ rw (e, delete_token) refl
    ]

-- The operations of the store, each with its arguments.
pub data Operation : Type 0 where
  user_created : Option Bytes → ℕ → Bytes → Bytes → Bytes → Bytes → Operation
  user_updated : ℕ → Bytes → UserPatch → Operation
  user_deleted : Bytes → Operation
  token_minted : Option Bytes → Option Bytes → ℕ → Bytes → Bytes → ℤ → Operation
  token_removed : Bytes → Bytes → Operation

abbrev pub perform : Packages → Operation → UserStore → UserStore
perform y (user_created random now username name email password) s =
    (create_user y random now username name email password s).1
perform y (user_updated now id patch) s = (update_user y now id patch s).1
perform y (user_deleted id) s = (delete_user id s).1
perform y (token_minted random random' now id label ttl) s =
    (create_token y random random' now id label ttl s).1
perform y (token_removed id token) s = (delete_token id token s).1

abbrev pub run : Packages → List Operation → UserStore → UserStore
run y [] s = s
run y (op ∷ ops) s = run y ops (perform y op s)

perform-IsNamed :
    (y : Packages) (op : Operation) (s : UserStore)
    → IsNamed s.users
    → IsNamed (perform y op s).users
perform-IsNamed y (user_created random now username name email password) s v =
    create_user-IsNamed y random now username name email password s v
perform-IsNamed y (user_updated now id patch) s v = update_user-IsNamed y now id patch s v
perform-IsNamed y (user_deleted id) s v = delete_user-IsNamed id s v
perform-IsNamed y (token_minted random random' now id label ttl) s v =
    subst IsNamed (sym (create_token-users y random random' now id label ttl s)) v
perform-IsNamed y (token_removed id token) s v =
    subst IsNamed (sym (delete_token-users id token s)) v

run-keeps :
    (y : Packages) (ops : List Operation) (s : UserStore)
    → IsNamed s.users
    → IsNamed (run y ops s).users
run-keeps y [] s v = v
run-keeps y (op ∷ ops) s v = run-keeps y ops (perform y op s) (perform-IsNamed y op s v)

-- Whatever operations are made on an empty store, every user stands under its own ID, and no two
-- users have the same name.
pub run-IsNamed : (y : Packages) (ops : List Operation) → IsNamed (run y ops new_user_store).users
unfolding new_user_store lookup
run-IsNamed y ops =
    run-keeps y ops new_user_store (λ k u e. ground arith, λ j k u v e f n. ground arith)
