-- ===== src/Auth/Endpoint/Rotation.antt =====
-- The rotation of refresh tokens (internal/handlers/oauth.go).
use mock_salesforce.Base.{
  ℕ, ◌≡◌, refl, ap, ◌∙◌, true, false, Option, none, some, [], Bytes, codes, is_empty, str_eq,
  str_eq_refl, lookup-insert, Bool-cases, inl, inr, if◌then◌else◌,
}
use mock_salesforce.Auth.Tokens.{Tokens, TokenInfo, lookup_token, register_token_info, mark_revoked}
use mock_salesforce.Auth.Tokens.Family.{without, lookup_token-mark_revoked}
use mock_salesforce.Auth.Endpoint.Forms.{Config, Crypto, granted}
use mock_salesforce.Auth.Endpoint.Issue.{
  unix, generate_token, issue_refreshed_access, rotate_refresh, refreshed_access,
}
use mock_salesforce.Auth.Endpoint.Grants.{exchange_refresh, refresh_entry}

lookup_token-register_token_info :
    (now : ℕ) (info : TokenInfo) (j : Bytes) (s : Tokens)
    → str_eq info.token j ≡ false
    → lookup_token now j (register_token_info info s) ≡ lookup_token now j s
unfolding lookup_token register_token_info
lookup_token-register_token_info now info j s h = elim (Bool-cases (is_empty info.token)) [
  | inl e ↦ rw (e, register_token_info) refl
  | inr e ↦ rw (e, register_token_info, lookup_token, lookup-insert info.token j info s, h) refl
]

without-none : (token : Bytes) (o : Option TokenInfo) → without token token o ≡ none
without-none token o = rw (str_eq_refl token) refl

marked_none :
    (token : Bytes) (later : ℕ) (s : Tokens)
    → lookup_token later token (mark_revoked token s).1 ≡ none
marked_none token later s =
    (lookup_token-mark_revoked token token later s).0
    ∙ without-none token (lookup_token later token s)

rotate_refresh_old :
    (y : Crypto) (now later : ℕ) (old : TokenInfo) (s : Tokens)
    → lookup_token later old.token (rotate_refresh y now old s).1 ≡ none
unfolding rotate_refresh
rotate_refresh_old y now later old s = marked_none old.token later (
    register_token_info
      (record old {
        token = generate_token y (codes "refresh") old.username now;
        kind = codes "refresh";
        issued_at = unix now;
        expires_at = 0;
        refresh = [];
        revoked = false;
      })
      s)

-- The new access token of a rotation, and the exchange's result.
abbrev new_access : Crypto → ℕ → TokenInfo → Tokens → TokenInfo
new_access y now old s = refreshed_access y now old (rotate_refresh y now old s).0

issue_refreshed_access_rotating :
    (c : Config) (y : Crypto) (now : ℕ) (old : TokenInfo) (s : Tokens)
    → c.mock_refresh_rotation ≡ true
    → issue_refreshed_access c y now old s ≡ (
      granted (new_access y now old s).token (rotate_refresh y now old s).0,
      register_token_info (new_access y now old s) (rotate_refresh y now old s).1,
    )
unfolding issue_refreshed_access
issue_refreshed_access_rotating c y now old s m =
    ap
      (λ b.
        let rotated : Bytes × Tokens = if b then rotate_refresh y now old s else (old.token, s) in
        (
          granted (refreshed_access y now old rotated.0).token rotated.0,
          register_token_info (refreshed_access y now old rotated.0) rotated.1,
        ))
      m

exchange_refresh_valid :
    (c : Config) (y : Crypto) (now : ℕ) (old : TokenInfo) (s : Tokens)
    → lookup_token (unix now) old.token s ≡ some old
    → str_eq old.kind (codes "refresh") ≡ true
    → exchange_refresh c y now old.token s ≡ issue_refreshed_access c y now old s
unfolding exchange_refresh refresh_entry
exchange_refresh_valid c y now old s e k = rw (e, exchange_refresh, k) refl

-- With rotation, an exchange of a refresh token that is stored under itself and is valid issues
-- tokens, and the refresh token is never valid afterwards, if the new access token is not the same
-- text.
pub exchange_refresh_rotates :
    (c : Config) (y : Crypto) (now later : ℕ) (s : Tokens) (old : TokenInfo)
    → c.mock_refresh_rotation ≡ true
    → lookup_token (unix now) old.token s ≡ some old
    → str_eq old.kind (codes "refresh") ≡ true
    → str_eq (refreshed_access y now old (rotate_refresh y now old s).0).token old.token ≡ false
    → ((exchange_refresh c y now old.token s).0
        ≡ granted
            (refreshed_access y now old (rotate_refresh y now old s).0).token
            (rotate_refresh y now old s).0)
      × (lookup_token later old.token (exchange_refresh c y now old.token s).1 ≡ none)
exchange_refresh_rotates c y now later s old m e k d =
    rw (exchange_refresh_valid c y now old s e k ∙ issue_refreshed_access_rotating c y now old s m)
      (
        refl,
        lookup_token-register_token_info later
              (refreshed_access y now old (rotate_refresh y now old s).0) old.token _ d
            ∙ rotate_refresh_old y now later old s,
      )
