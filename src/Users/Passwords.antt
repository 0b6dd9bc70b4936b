-- ===== src/Users/Passwords.antt =====
-- Passwords (`VerifyPassword` of internal/users/store.go over internal/users/memory.go).
use mock_salesforce.Base.{
  ℕ, ◌≡◌, ◌↔◌, ◌⊎◌, refl, sym, ap, ◌∙◌, inl, inr, Bool-cases, false≢true, Option, none, some, [],
  ◌∷◌, Bytes, is_empty, str_eq, str_eq_iff, str_eq_refl, Assoc, lookup, insert, lookup-insert,
  subst, if◌then◌else◌,
}
use mock_salesforce.Users.Types.{
  User, UserStore, Fallible, ok, err, empty_username, empty_password, username_taken, Packages,
  hash_password,
}
use mock_salesforce.Users.Methods.{
  first_named, get_user_by_username, verify_password, made_user, create_user, is_taken,
}
use mock_salesforce.Users.Names.{IsNamed, create_user-IsNamed}

-- The entry is in the list.
abbrev pub IsIn : Bytes → User → Assoc User → Type 0
IsIn k u [] = ⊥
IsIn k u ((j, v) ∷ m) = ((j ≡ k) × (v ≡ u)) ⊎ IsIn k u m

-- The walk of a map visits its entries, and no others.
abbrev pub Visits : Packages → Assoc User → Type 0
Visits y m = (k : Bytes) (u : User) → IsIn k u (y.walk m) ↔ (lookup k m ≡ some u)

first_named-IsIn :
    (name : Bytes) (u : User) (m : Assoc User)
    → first_named name m ≡ ok u
    → (k : Bytes) × IsIn k u m × (u.username ≡ name)
unfolding first_named
first_named-IsIn name u [] h = cc
first_named-IsIn name u ((j, v) ∷ m) h = elim (Bool-cases (str_eq v.username name)) [
  | inl e ↦
      let q : ok v ≡ ok u = rw e at h in
      let same : v ≡ u = cc in
      (j, inl (refl, same), sym (ap (λ x. x.username) same) ∙ (str_eq_iff v.username name).0 e)
  | inr e ↦ let (k, i, n) = first_named-IsIn name u m (rw e at h) in (k, inr i, n)
]

first_named_found :
    (name : Bytes) (u : User) (m : Assoc User)
    → ((k : Bytes) (v : User) → IsIn k v m → v.username ≡ name → v ≡ u)
    → (k : Bytes) → IsIn k u m
    → u.username ≡ name
    → first_named name m ≡ ok u
unfolding first_named
first_named_found name u [] only k i n = absurd i
first_named_found name u ((j, v) ∷ m) only k i n = elim (Bool-cases (str_eq v.username name)) [
  | inl e ↦ rw e (ap ok (only j v (inl (refl, refl)) ((str_eq_iff v.username name).0 e)))
  | inr e ↦ rw e (elim i [
    | inl (_, same) ↦
        absurd (false≢true (sym e ∙ (str_eq_iff v.username name).1 (ap (λ x. x.username) same ∙ n)))
    | inr i' ↦ first_named_found name u m (λ k' v' p. only k' v' (inr p)) k i' n
  ])
]

-- The user with the name is there under some ID, and has the hash of the password.
abbrev pub HasPassword : Packages → Bytes → Bytes → UserStore → User → Type 0
HasPassword y username password s u =
    ((k : Bytes) × (lookup k s.users ≡ some u))
    × (u.username ≡ username)
    × (u.password_hash ≡ hash_password y password)

verified :
    (y : Packages) (username password : Bytes) (s : UserStore) (u : User) (o : Fallible User)
    → get_user_by_username y username s ≡ o
    → verify_password y username password s ≡ some u
    → (o ≡ ok u) × (u.password_hash ≡ hash_password y password)
unfolding verify_password
verified y username password s u (err x) e h =
    let q : none ≡ some u = rw (e, verify_password) at h in cc
verified y username password s u (ok v) e h =
    elim (Bool-cases (str_eq v.password_hash (hash_password y password))) [
      | inl p ↦
          let q : some v ≡ some u = rw (e, verify_password, p) at h in
          let same : v ≡ u = cc in
          (ap ok same, sym (ap (λ x. x.password_hash) same) ∙ (str_eq_iff _ _).0 p)
      | inr p ↦ let q : none ≡ some u = rw (e, verify_password, p) at h in cc
    ]

user_found :
    (y : Packages) (s : UserStore) (u : User) (k : Bytes)
    → Visits y s.users
    → IsNamed s.users
    → lookup k s.users ≡ some u
    → get_user_by_username y u.username s ≡ ok u
unfolding get_user_by_username
user_found y s u k walks (own, unique) e =
    first_named_found u.username u (y.walk s.users)
      (λ j v i n.
        let here = (walks j v).0 i in
        let same : j ≡ k = unique j k v u here e n in
        let q : some v ≡ some u = sym here ∙ ap (λ x. lookup x s.users) same ∙ e in cc)
      k ((walks k u).1 e) refl

-- In a store in which no two users have the same name, and with a walk that visits the users of the
-- store and no others, `VerifyPassword` gives out a user exactly if the user has the name and the
-- hash of the password.
pub verify_password_iff :
    (y : Packages) (username password : Bytes) (s : UserStore) (u : User)
    → Visits y s.users
    → IsNamed s.users
    → (verify_password y username password s ≡ some u) ↔ HasPassword y username password s u
unfolding get_user_by_username verify_password
verify_password_iff y username password s u walks (own, unique) = (
  λ h.
      let (found, p) = verified y username password s u _ refl h in
      let (k, i, n) = first_named-IsIn username u (y.walk s.users) found in
      ((k, (walks k u).0 i), n, p),
  λ ((k, e), n, p).
      let found : get_user_by_username y username s ≡ ok u =
        subst (λ x. get_user_by_username y x s ≡ ok u) n
          (user_found y s u k walks (own, unique) e) in
      rw (found, verify_password, (str_eq_iff u.password_hash (hash_password y password)).1 p) refl,
)

-- What `CreateUser` does when it makes a user.
created :
    (y : Packages) (random : Option Bytes) (now : ℕ) (username name email password : Bytes)
    (s : UserStore) (u : User)
    → (create_user y random now username name email password s).0 ≡ ok u
    → (lookup u.id (create_user y random now username name email password s).1.users ≡ some u)
      × (u.username ≡ username)
      × (u.password_hash ≡ hash_password y password)
unfolding create_user made_user
created y random now username name email password s u h = elim (Bool-cases (is_empty username)) [
  | inl e ↦ let q : err empty_username ≡ ok u = rw e at h in cc
  | inr e ↦ elim (Bool-cases (is_empty password)) [
    | inl e' ↦ let q : err empty_password ≡ ok u = rw (e, e') at h in cc
    | inr e' ↦ elim (Bool-cases (is_taken username s.users)) [
      | inl t ↦ let q : err username_taken ≡ ok u = rw (e, e', t) at h in cc
      | inr t ↦
          let made = made_user y random now username name email password in
          let q : ok made ≡ ok u = rw (e, e', t) at h in
          let same : made ≡ u = cc in
          rw (e, e', t)
            (subst
              (λ x.
                (lookup x.id (insert made.id made s.users) ≡ some x)
                × (x.username ≡ username)
                × (x.password_hash ≡ hash_password y password))
              same
              (
                rw (lookup-insert made.id made.id made s.users, str_eq_refl made.id) refl,
                refl,
                refl,
              ))
    ]
  ]
]

-- Once `CreateUser` has made a user in a store in which no two users have the same name,
-- `VerifyPassword` gives that user out under the name for each password with the same hash, as the
-- password itself, and for no other, if the walk of the new store visits its users and no others.
pub verify_password-create_user :
    (y : Packages) (random : Option Bytes) (now : ℕ) (username name email password attempt : Bytes)
    (s : UserStore) (u : User)
    → Visits y (create_user y random now username name email password s).1.users
    → IsNamed s.users
    → (create_user y random now username name email password s).0 ≡ ok u
    → verify_password y username attempt (create_user y random now username name email password s).1
      ≡ (if str_eq (hash_password y password) (hash_password y attempt) then some u else none)
unfolding verify_password
verify_password-create_user y random now username name email password attempt s u walks v h =
    let s' = (create_user y random now username name email password s).1 in
    let (e, n, p) = created y random now username name email password s u h in
    let found : get_user_by_username y username s' ≡ ok u =
      subst (λ x. get_user_by_username y x s' ≡ ok u) n
        (user_found y s' u u.id walks
          (create_user-IsNamed y random now username name email password s v) e) in
    rw (found, verify_password, p) refl
