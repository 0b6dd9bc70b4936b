-- ===== src/Users/Names.antt =====
-- The names of users over sequences of steps (internal/users/memory.go).
use mock_salesforce.Base.{
  ℕ, ◌≡◌, refl, sym, ap, ◌∙◌, inl, inr, Bool-cases, false, false≢true, Option, none, some, [], ◌∷◌,
  Bytes, str_eq, str_eq_iff, Assoc, lookup, insert, erase, inserted, erased, is_empty, arith,
}
use mock_salesforce.Users.Types.{User, UserPatch, UserStore, Packages}
use mock_salesforce.Users.Methods.{
  is_taken, is_taken_by_other, is_conflict, made_user, or_old, patched, create_user, update_user,
}

-- Every user stands under its own ID, and no two have the same name.
abbrev pub IsNamed : Assoc User → Type 0
IsNamed m =
    ((k : Bytes) (u : User) → lookup k m ≡ some u → u.id ≡ k)
    × ((j k : Bytes) (u v : User)
        → lookup j m ≡ some u
        → lookup k m ≡ some v
        → u.username ≡ v.username
        → j ≡ k)

is_taken_lem :
    (name k : Bytes) (u : User) (m : Assoc User)
    → is_taken name m ≡ false
    → lookup k m ≡ some u
    → str_eq u.username name ≡ false
unfolding is_taken lookup
is_taken_lem name k u [] h e = ground arith
is_taken_lem name k u ((j, v) ∷ m) h e = ground (arith, is_taken_lem name k u m)

is_taken_by_other_lem :
    (id name k : Bytes) (u : User) (m : Assoc User)
    → is_taken_by_other id name m ≡ false
    → lookup k m ≡ some u
    → str_eq u.id id ≡ false
    → str_eq u.username name ≡ false
unfolding is_taken_by_other lookup
is_taken_by_other_lem id name k u [] h e n = ground arith
is_taken_by_other_lem id name k u ((j, v) ∷ m) h e n =
    ground (arith, is_taken_by_other_lem id name k u m)

-- A user may be put under its ID if no other user has its name.
insert-IsNamed :
    (id : Bytes) (u : User) (m : Assoc User)
    → IsNamed m
    → u.id ≡ id
    → ((k : Bytes) (v : User)
        → lookup k m ≡ some v
        → str_eq id k ≡ false
        → str_eq v.username u.username ≡ false)
    → IsNamed (insert id u m)
insert-IsNamed id u m (own, unique) same free = (
  λ k v e. elim (inserted id k u v m e) [
    | inl (h, q) ↦ ap (λ x. x.id) q ∙ same ∙ h
    | inr (h, e') ↦ own k v e'
  ],
  λ j k v w e f n. elim (inserted id j u v m e) [
    | inl (h, q) ↦ elim (inserted id k u w m f) [
      | inl (h', q') ↦ sym h ∙ h'
      | inr (h', f') ↦ absurd (
          false≢true (
            sym (free k w f' h')
            ∙ (str_eq_iff w.username u.username).1 (sym n ∙ ap (λ x. x.username) q)))
    ]
    | inr (h, e') ↦ elim (inserted id k u w m f) [
      | inl (h', q') ↦ absurd (
          false≢true (
            sym (free j v e' h)
            ∙ (str_eq_iff v.username u.username).1 (n ∙ ap (λ x. x.username) q')))
      | inr (h', f') ↦ unique j k v w e' f' n
    ]
  ],
)

pub erase-IsNamed : (id : Bytes) (m : Assoc User) → IsNamed m → IsNamed (erase id m)
erase-IsNamed id m (own, unique) = (
  λ k v e. own k v (erased id k v m e).1,
  λ j k v w e f n. unique j k v w (erased id j v m e).1 (erased id k w m f).1 n,
)

pub create_user-IsNamed :
    (y : Packages) (random : Option Bytes) (now : ℕ) (username name email password : Bytes)
    (s : UserStore)
    → IsNamed s.users
    → IsNamed (create_user y random now username name email password s).1.users
unfolding create_user made_user
create_user-IsNamed y random now username name email password s v =
    elim (Bool-cases (is_empty username)) [
      | inl e ↦ rw e v
      | inr e ↦ elim (Bool-cases (is_empty password)) [
        | inl e' ↦ rw (e, e') v
        | inr e' ↦ elim (Bool-cases (is_taken username s.users)) [
          | inl t ↦ rw (e, e', t) v
          | inr t ↦
              rw (e, e', t)
                (insert-IsNamed _ _ s.users v refl
                  (λ k w f n. is_taken_lem username k w s.users t f))
        ]
      ]
    ]

same_name_free :
    (id : Bytes) (u : User) (m : Assoc User)
    → IsNamed m
    → lookup id m ≡ some u
    → (k : Bytes) (w : User) → lookup k m ≡ some w
    → str_eq id k ≡ false
    → str_eq w.username u.username ≡ false
same_name_free id u m (own, unique) e k w f n = elim (Bool-cases (str_eq w.username u.username)) [
  | inl h ↦
      let same = unique id k u w e f (sym ((str_eq_iff w.username u.username).0 h)) in
      absurd (false≢true (sym n ∙ (str_eq_iff id k).1 same))
  | inr h ↦ h
]

-- The name after a patch without a conflict is no other user's.
name_free :
    (id : Bytes) (o : Option Bytes) (u : User) (m : Assoc User)
    → IsNamed m
    → lookup id m ≡ some u
    → is_conflict id o u m ≡ false
    → (k : Bytes) (w : User) → lookup k m ≡ some w
    → str_eq id k ≡ false
    → str_eq w.username (or_old o u.username) ≡ false
unfolding is_conflict
name_free id none u m v e c k w f n = same_name_free id u m v e k w f n
name_free id (some name) u m v e c k w f n = elim (Bool-cases (str_eq name u.username)) [
  | inl h ↦
      let q : name ≡ u.username = (str_eq_iff name u.username).0 h in
      rw q (same_name_free id u m v e k w f n)
  | inr h ↦
      let c' : is_taken_by_other id name m ≡ false = rw h at c in
      let own : w.id ≡ k = v.0 k w f in
      let other : str_eq w.id id ≡ false = ground (arith, str_eq_iff w.id id, str_eq_iff id k) in
      is_taken_by_other_lem id name k w m c' f other
]

updated_found :
    (y : Packages) (now : ℕ) (id : Bytes) (patch : UserPatch) (s : UserStore) (o : Option User)
    → IsNamed s.users
    → lookup id s.users ≡ o
    → IsNamed (update_user y now id patch s).1.users
unfolding update_user patched
updated_found y now id patch s none v e = rw (e, update_user) v
updated_found y now id patch s (some u) v e =
    elim (Bool-cases (is_conflict id patch.username u s.users)) [
      | inl c ↦ rw (e, update_user, c) v
      | inr c ↦
          let own : u.id ≡ id = v.0 id u e in
          rw (e, update_user, c)
            (insert-IsNamed id (patched y now patch u) s.users v own
              (name_free id patch.username u s.users v e c))
    ]

pub update_user-IsNamed :
    (y : Packages) (now : ℕ) (id : Bytes) (patch : UserPatch) (s : UserStore)
    → IsNamed s.users
    → IsNamed (update_user y now id patch s).1.users
update_user-IsNamed y now id patch s v = updated_found y now id patch s (lookup id s.users) v refl
