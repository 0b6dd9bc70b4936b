-- ===== src/Auth/Tokens/Family.antt =====
-- Revocation and lookup of tokens (internal/server/middleware/auth.go).
use mock_salesforce.Base.{
  ℕ, ◌≡◌, refl, Bool, true, false, Option, none, some, [], ◌∷◌, Bytes, inl, inr, Bool-cases,
  Option-cases, str_eq_refl, is_empty, str_eq, str_eq_iff, lookup, insert, erase, map_values,
  lookup-insert, lookup-erase, lookup-map_values, arith, if◌then◌else◌,
}
use mock_salesforce.Auth.Tokens.{
  Tokens, TokenInfo, is_expired, if_valid, lookup_token, revoke_token, mark_revoked, revoke_family,
  revoke_member, is_live_member, count_live,
}

-- The entry, unless it is in the family.
abbrev pub outside : Bytes → Option TokenInfo → Option TokenInfo
outside family none = none
outside family (some info) = if str_eq info.family family then none else some info

outside_member :
    (family : Bytes) (now : ℕ) (o : Option TokenInfo)
    → if_valid now (elim o [ none ↦ none | some info ↦ some (revoke_member family info) ])
      ≡ outside family (if_valid now o)
unfolding if_valid revoke_member is_live_member is_expired
outside_member family now none = refl
outside_member family now (some info) = ground arith

-- After RevokeFamily on a family that is not empty, LookupToken gives at any time the entries that
-- it gave before, less those of the family.
pub lookup_token-revoke_family :
    (family : Bytes) (s : Tokens) (now : ℕ) (token : Bytes)
    → is_empty family ≡ false
    → lookup_token now token (revoke_family family s).1 ≡ outside family (lookup_token now token s)
unfolding revoke_family lookup_token
lookup_token-revoke_family family s now token h =
    rw (h, lookup_token, lookup-map_values (revoke_member family) token s)
      (outside_member family now (lookup token s))

count_live-revoke_member :
    (family : Bytes) (s : Tokens) → count_live family (map_values (revoke_member family) s) ≡ 0
unfolding count_live map_values revoke_member is_live_member
count_live-revoke_member family [] = refl
count_live-revoke_member family ((k, info) ∷ s) = ground (arith, count_live-revoke_member family s)

-- A second RevokeFamily on the same family finds nothing to mark.
pub revoke_family_twice :
    (family : Bytes) (s : Tokens) → (revoke_family family (revoke_family family s).1).0 ≡ 0
unfolding revoke_family
revoke_family_twice family s = elim (Bool-cases (is_empty family)) [
  | inl e ↦ rw (e, revoke_family) refl
  | inr e ↦ rw (e, revoke_family) (count_live-revoke_member family s)
]

abbrev pub without : Bytes → Bytes → Option TokenInfo → Option TokenInfo
without token j o = if str_eq token j then none else o

marked :
    (token j : Bytes) (now : ℕ) (s : Tokens) (o : Option TokenInfo)
    → lookup token s ≡ o
    → if_valid now (
        lookup j
          (elim o as (λ _. Bool × Tokens) [
            | none ↦ (false, s)
            | some info ↦ (true, insert token (record info { revoked = true }) s)
          ]).1)
      ≡ without token j (if_valid now (lookup j s))
unfolding if_valid
marked token j now s none e = ground (arith, str_eq_iff token j)
marked token j now s (some info) e =
    ground (arith, str_eq_iff token j, lookup-insert token j (record info { revoked = true }) s)

erased :
    (token j : Bytes) (now : ℕ) (s : Tokens) (o : Option TokenInfo)
    → lookup token s ≡ o
    → if_valid now (
        lookup j
          (elim o as (λ _. Bool × Tokens) [
            | none ↦ (false, s)
            | some info ↦ (true, erase token s)
          ]).1)
      ≡ without token j (if_valid now (lookup j s))
unfolding if_valid
erased token j now s none e = ground (arith, str_eq_iff token j)
erased token j now s (some info) e = ground (arith, str_eq_iff token j, lookup-erase token j s)

-- After MarkRevoked, and after RevokeToken, LookupToken gives nothing for that token, and for every
-- other token what it gave before.
pub lookup_token-mark_revoked :
    (token j : Bytes) (now : ℕ) (s : Tokens)
    → (lookup_token now j (mark_revoked token s).1 ≡ without token j (lookup_token now j s))
      × (lookup_token now j (revoke_token token s).1 ≡ without token j (lookup_token now j s))
unfolding lookup_token mark_revoked revoke_token
lookup_token-mark_revoked token j now s =
    (marked token j now s (lookup token s) refl, erased token j now s (lookup token s) refl)

pub lookup_token-revoke_token :
    (later : ℕ) (token : Bytes) (s : Tokens)
    → lookup_token later token (revoke_token token s).1 ≡ none
unfolding lookup_token revoke_token if_valid
lookup_token-revoke_token later token s = elim (Option-cases (lookup token s)) [
  | inl e ↦ rw (e, revoke_token, e) refl
  | inr (info, e) ↦ rw (e, revoke_token, lookup-erase token token s, str_eq_refl token) refl
]
