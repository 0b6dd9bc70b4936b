-- ===== src/Auth/Guard/Passes.antt =====
-- The outcomes of the guard, and the check of `next` (internal/server/middleware/auth.go).
use mock_salesforce.Base.{
  ℕ, ◌≡◌, refl, sym, subst, ◌⊎◌, inl, inr, true, false, Option, none, some, [], Bytes, codes,
  str_eq, starts_with, Bool-cases, Option-cases, drop, arith,
}
use mock_salesforce.Auth.Tokens.{Tokens, TokenInfo, is_expired, lookup_token, lookup_token_raw}
use mock_salesforce.Auth.Guard.{
  Request, Outcome, open_route, by_session, by_bearer, token_expired, to_login, unauthorized, guard,
  is_open_path, is_html_request, login_params, refuse, bearer_entry, is_stale_access,
  or_bearer_user, sanitize_next,
}

-- No entry, or one of a refresh token.
abbrev pub IsUnusable : Option TokenInfo → Type 0
IsUnusable none = Unit
IsUnusable (some info) = str_eq info.kind (codes "refresh") ≡ true

-- An entry of an access token that is not revoked and has expired.
abbrev pub IsStale : ℕ → Option TokenInfo → Type 0
IsStale now none = ⊥
IsStale now (some raw) =
    (str_eq raw.kind (codes "access") ≡ true) × (raw.revoked ≡ false) × (is_expired now raw ≡ true)

abbrev pub IsNotStale : ℕ → Option TokenInfo → Type 0
IsNotStale now none = Unit
IsNotStale now (some raw) =
    (str_eq raw.kind (codes "access") ≡ false) ⊎ (raw.revoked ≡ true) ⊎ (is_expired now raw ≡ false)

-- What has to hold for an outcome.
abbrev pub IsGranted : ℕ → Tokens → Request → Outcome → Type 0
IsGranted now s r open_route = is_open_path r.path ≡ true
IsGranted now s r (by_session email) = (is_open_path r.path ≡ false) × (r.session ≡ some email)
IsGranted now s r (by_bearer user) =
    (is_open_path r.path ≡ false)
    × (r.session ≡ none)
    × (starts_with r.authorization (codes "Bearer ") ≡ true)
    × ((info : TokenInfo) × (lookup_token now (drop 7 r.authorization) s ≡ some info)
        × (str_eq info.kind (codes "refresh") ≡ false)
        × (user ≡ or_bearer_user info.username))
IsGranted now s r token_expired =
    (is_open_path r.path ≡ false)
    × (r.session ≡ none)
    × (starts_with r.authorization (codes "Bearer ") ≡ true)
    × IsUnusable (lookup_token now (drop 7 r.authorization) s)
    × IsStale now (lookup_token_raw (drop 7 r.authorization) s)
IsGranted now s r (to_login params) =
    (is_open_path r.path ≡ false)
    × (r.session ≡ none)
    × (is_html_request r ≡ true)
    × (params ≡ login_params r)
IsGranted now s r unauthorized =
    (is_open_path r.path ≡ false)
    × (r.session ≡ none)
    × (is_html_request r ≡ false)
    × ((starts_with r.authorization (codes "Bearer ") ≡ false)
        ⊎ (IsUnusable (lookup_token now (drop 7 r.authorization) s)
            × IsNotStale now (lookup_token_raw (drop 7 r.authorization) s)))

IsUnusable-bearer_entry : (o : Option TokenInfo) → bearer_entry o ≡ none → IsUnusable o
unfolding bearer_entry
IsUnusable-bearer_entry none h = tt
IsUnusable-bearer_entry (some info) h = ground arith

IsStale-is_stale_access :
    (now : ℕ) (o : Option TokenInfo) → is_stale_access now o ≡ true → IsStale now o
unfolding is_stale_access
IsStale-is_stale_access now none h = absurd (ground arith)
IsStale-is_stale_access now (some raw) h = (ground arith, ground arith, ground arith)

IsNotStale-is_stale_access :
    (now : ℕ) (o : Option TokenInfo) → is_stale_access now o ≡ false → IsNotStale now o
unfolding is_stale_access
IsNotStale-is_stale_access now none h = tt
IsNotStale-is_stale_access now (some raw) h = ground arith

refuse-IsGranted :
    (now : ℕ) (s : Tokens) (r : Request)
    → is_open_path r.path ≡ false
    → r.session ≡ none
    → starts_with r.authorization (codes "Bearer ") ≡ false
    → IsGranted now s r (refuse r)
unfolding refuse
refuse-IsGranted now s r h n b = elim (Bool-cases (is_html_request r)) [
  | inl e ↦ rw (e, refuse) (h, n, e, refl)
  | inr e ↦ rw (e, refuse) (h, n, e, inl b)
]

bearer_entry_cases :
    (o : Option TokenInfo)
    → (bearer_entry o ≡ none)
      ⊎ ((info : TokenInfo) × ((o ≡ some info)
            × (str_eq info.kind (codes "refresh") ≡ false)
            × (bearer_entry o ≡ some info)))
unfolding bearer_entry
bearer_entry_cases none = inl refl
bearer_entry_cases (some info) = elim (Bool-cases (str_eq info.kind (codes "refresh"))) [
  | inl e ↦ inl (rw e refl)
  | inr e ↦ inr (info, (refl, e, rw e refl))
]

by_outcome :
    (now : ℕ) (s : Tokens) (r : Request) (o : Outcome)
    → guard now s r ≡ o
    → IsGranted now s r o
    → IsGranted now s r (guard now s r)
by_outcome now s r o e h = subst (IsGranted now s r) (sym e) h

not_html :
    (r : Request) → starts_with r.authorization (codes "Bearer ") ≡ true → is_html_request r ≡ false
unfolding is_html_request
not_html r b = rw (b, is_html_request) refl

bearer_refused :
    (r : Request) → starts_with r.authorization (codes "Bearer ") ≡ true → refuse r ≡ unauthorized
unfolding refuse
bearer_refused r b = rw (not_html r b, refuse) refl

bearer-IsGranted :
    (now : ℕ) (s : Tokens) (r : Request)
    → is_open_path r.path ≡ false
    → r.session ≡ none
    → starts_with r.authorization (codes "Bearer ") ≡ true
    → IsGranted now s r (guard now s r)
unfolding guard
bearer-IsGranted now s r p n b =
    elim (bearer_entry_cases (lookup_token now (drop 7 r.authorization) s)) [
      | inr (info, (e, k, f)) ↦
          by_outcome now s r (by_bearer (or_bearer_user info.username))
            (rw (p, guard, n, b, f) refl) (p, n, b, (info, e, k, refl))
      | inl f ↦
          let unusable = IsUnusable-bearer_entry (lookup_token now (drop 7 r.authorization) s) f in
          let raw = lookup_token_raw (drop 7 r.authorization) s in
          elim (Bool-cases (is_stale_access now raw)) [
            | inl e ↦
                by_outcome now s r token_expired (rw (p, guard, n, b, f, e) refl)
                  (p, n, b, unusable, IsStale-is_stale_access now raw e)
            | inr e ↦
                by_outcome now s r unauthorized (rw (p, guard, n, b, f, e) (bearer_refused r b))
                  (p, n, not_html r b, inr (unusable, IsNotStale-is_stale_access now raw e))
          ]
    ]

closed-IsGranted :
    (now : ℕ) (s : Tokens) (r : Request)
    → is_open_path r.path ≡ false
    → IsGranted now s r (guard now s r)
unfolding guard
closed-IsGranted now s r p = elim (Option-cases r.session) [
  | inr (email, e) ↦ by_outcome now s r (by_session email) (rw (p, guard, e) refl) (p, e)
  | inl n ↦ elim (Bool-cases (starts_with r.authorization (codes "Bearer "))) [
    | inl b ↦ bearer-IsGranted now s r p n b
    | inr b ↦
        by_outcome now s r (refuse r) (rw (p, guard, n, b) refl) (refuse-IsGranted now s r p n b)
  ]
]

-- The guard calls the next handler for an open path, with the email of a valid session, or for a
-- bearer token that LookupToken gives at that time and that is no refresh token. Of the other
-- requests it answers with the challenge of an expired token exactly those with a bearer token whose
-- entry is of an access token that is not revoked and has expired, redirects those of browsers to the
-- login page with the parameters of the request, and refuses the rest.
pub guard-IsGranted : (now : ℕ) (s : Tokens) (r : Request) → IsGranted now s r (guard now s r)
unfolding guard
guard-IsGranted now s r = elim (Bool-cases (is_open_path r.path)) [
  | inl p ↦ rw (p, guard) p
  | inr p ↦ closed-IsGranted now s r p
]

-- `sanitizeNext` gives either nothing or the text itself, which then begins with a slash that no
-- second slash follows; and it gives the text itself for every such text.
pub sanitize_next_iff :
    (s : Bytes)
    → ((starts_with s (codes "/") ≡ true) × (starts_with s (codes "//") ≡ false)
        → sanitize_next s ≡ s)
      × (((starts_with s (codes "/") ≡ false) ⊎ (starts_with s (codes "//") ≡ true))
          → sanitize_next s ≡ [])
unfolding sanitize_next starts_with
sanitize_next_iff s = (ground arith, ground arith)
