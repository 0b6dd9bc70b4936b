-- ===== src/Auth/Sessions/Signed.antt =====
-- The session tokens of internal/server/middleware/jwt.go are read back, and only signed ones are read.
use mock_salesforce.Base.{
  ℕ, ◌≡◌, refl, sym, Bool, true, not, ◌&&◌, Option, none, some, List, [], ◌∷◌, ◌++◌, Bytes, codes,
  str_eq, str_eq_iff, ◌==◌, inl, inr, arith, Bool-cases,
}
use mathlib.Core.List.{append_assoc, append-nil}
use mock_salesforce.Auth.Sessions.{
  SessionClaims, Jwt, jwt_header, dot, prepend, signed_text, mint_session_jwt, split_dots,
  unless_expired, read_claims, parse_parts, parse_session_jwt,
}

unfoldable pub is_dotless : Bytes → Bool
is_dotless [] = true
is_dotless (c ∷ s) = not (c == b'.') && is_dotless s

split_dots-dotless : (a : Bytes) → is_dotless a ≡ true → split_dots a ≡ a ∷ []
unfolding is_dotless split_dots
split_dots-dotless [] h = refl
split_dots-dotless (c ∷ s) h = ground (arith, split_dots-dotless s)

split_dots-dot :
    (a rest : Bytes) → is_dotless a ≡ true → split_dots (a ++ dot ++ rest) ≡ a ∷ split_dots rest
unfolding is_dotless split_dots
split_dots-dot [] rest h = refl
split_dots-dot (c ∷ s) rest h = ground (arith, split_dots-dot s rest)

three_parts :
    (a b c : Bytes)
    → is_dotless a ≡ true
    → is_dotless b ≡ true
    → is_dotless c ≡ true
    → split_dots (a ++ dot ++ b ++ dot ++ c) ≡ a ∷ b ∷ c ∷ []
three_parts a b c ha hb hc =
    rw
      (
        append_assoc (a ++ dot ++ b) dot c,
        append_assoc (a ++ dot) b (dot ++ c),
        split_dots-dot a (b ++ (dot ++ c)) ha,
        sym (append_assoc b dot c),
        split_dots-dot b c hb,
        split_dots-dotless c hc,
      )
      refl

-- What the tokens need of Go's packages: base64 text has no dots and is decoded to what was encoded,
-- the header is read, and the claims are read back.
abbrev pub IsLossless : Jwt → SessionClaims → Type 0
IsLossless y c =
    ((s : Bytes) → is_dotless (y.encode s) ≡ true)
    × ((s : Bytes) → y.decode (y.encode s) ≡ some s)
    × (y.header_alg jwt_header ≡ some (codes "HS256"))
    × ((text : Bytes) → y.marshal c ≡ some text → y.unmarshal text ≡ some c)

read_claims-encode :
    (y : Jwt) (now : ℕ) (c : SessionClaims) (text : Bytes)
    → IsLossless y c
    → y.marshal c ≡ some text
    → read_claims y now (y.encode jwt_header) (y.encode text) ≡ unless_expired now (some c)
unfolding read_claims str_eq
read_claims-encode y now c text (_, decoded, alg, lossless) h =
    rw (decoded jwt_header, alg, decoded text, lossless text h) refl

str_eq_refl : (a : Bytes) → str_eq a a ≡ true
str_eq_refl a = (str_eq_iff a a).1 refl

parse_session_jwt-signed :
    (y : Jwt) (now : ℕ) (c : SessionClaims) (secret text : Bytes)
    → IsLossless y c
    → y.marshal c ≡ some text
    → parse_session_jwt y now
        (signed_text y secret (y.encode jwt_header ++ dot ++ y.encode text))
        secret
      ≡ unless_expired now (some c)
unfolding signed_text parse_session_jwt parse_parts
parse_session_jwt-signed y now c secret text l h =
    let sig = y.encode (y.hmac secret (y.encode jwt_header ++ dot ++ y.encode text)) in
    rw
      (
        three_parts (y.encode jwt_header) (y.encode text) sig (l.0 jwt_header) (l.0 text)
            (l.0 (y.hmac secret (y.encode jwt_header ++ dot ++ y.encode text))),
        str_eq_refl sig,
      )
      (read_claims-encode y now c text l h)

minted :
    (y : Jwt) (now : ℕ) (c : SessionClaims) (secret token : Bytes) (o : Option Bytes)
    → IsLossless y c
    → y.marshal c ≡ o
    → mint_session_jwt y c secret ≡ some token
    → parse_session_jwt y now token secret ≡ unless_expired now (some c)
unfolding mint_session_jwt
minted y now c secret token none l e m =
    let q : none ≡ some token = rw (mint_session_jwt, e) at m in cc
minted y now c secret token (some text) l e m =
    let q : some (signed_text y secret (y.encode jwt_header ++ dot ++ y.encode text)) ≡ some token =
      rw (mint_session_jwt, e) at m in
    let signed : signed_text y secret (y.encode jwt_header ++ dot ++ y.encode text) ≡ token = cc in
    rw (sym signed) (parse_session_jwt-signed y now c secret text l e)

-- A token that was minted is read under the same key as the claims it was minted for, or as nothing
-- when they have expired, if Go's encodings can be read back.
pub parse_session_jwt-mint_session_jwt :
    (y : Jwt) (now : ℕ) (c : SessionClaims) (secret token : Bytes)
    → IsLossless y c
    → mint_session_jwt y c secret ≡ some token
    → parse_session_jwt y now token secret ≡ unless_expired now (some c)
parse_session_jwt-mint_session_jwt y now c secret token l h =
    minted y now c secret token (y.marshal c) l refl h

-- The parts, each after a dot.
joined : List Bytes → Bytes
joined [] = []
joined (p ∷ ps) = b'.' ∷ (p ++ joined ps)

joined-prepend :
    (c : ℕ) (s : Bytes) (ps : List Bytes)
    → joined ps ≡ b'.' ∷ s
    → joined (prepend c ps) ≡ b'.' ∷ c ∷ s
unfolding joined
joined-prepend c s [] h = cc
joined-prepend c s (p ∷ ps) h = cc

joined-split_dots : (s : Bytes) → joined (split_dots s) ≡ b'.' ∷ s
unfolding joined split_dots
joined-split_dots [] = refl
joined-split_dots (c ∷ s) = elim (Bool-cases (c == b'.')) [
  | inl e ↦ rw (e, joined-split_dots s) (let q : c ≡ b'.' = ground arith in cc)
  | inr e ↦ rw (e) (joined-prepend c s (split_dots s) (joined-split_dots s))
]

-- The token is a text and a dot, then the base64 of the text's HMAC under the key.
abbrev pub IsSigned : Jwt → Bytes → Bytes → Type 0
IsSigned y secret token = (signing : Bytes) × (token ≡ signed_text y secret signing)

verified :
    (y : Jwt) (now : ℕ) (c : SessionClaims) (secret a b s : Bytes)
    → parse_parts y now (a ∷ b ∷ s ∷ []) secret ≡ some c
    → y.encode (y.hmac secret (a ++ dot ++ b)) ≡ s
unfolding parse_parts
verified y now c secret a b s h = elim (Bool-cases expected) [
  | inl e ↦ (str_eq_iff (y.encode (y.hmac secret (a ++ dot ++ b))) s).0 e
  | inr e ↦ let q : none ≡ some c = rw (parse_parts, e) at h in cc
]
  where
    expected : Bool
    expected = str_eq (y.encode (y.hmac secret (a ++ dot ++ b))) s

verified_parts :
    (y : Jwt) (now : ℕ) (c : SessionClaims) (secret token : Bytes) (parts : List Bytes)
    → joined parts ≡ b'.' ∷ token
    → parse_parts y now parts secret ≡ some c
    → IsSigned y secret token
unfolding joined parse_parts signed_text str_eq
verified_parts y now c secret token [] j h = cc
verified_parts y now c secret token (a ∷ []) j h = cc
verified_parts y now c secret token (a ∷ b ∷ []) j h = cc
verified_parts y now c secret token (a ∷ b ∷ s ∷ []) j h =
    let t : a ++ (dot ++ (b ++ (dot ++ (s ++ [])))) ≡ token = cc in
    (
      a ++ dot ++ b,
      rw
          (
            verified y now c secret a b s h,
            append_assoc (a ++ dot ++ b) dot s,
            append_assoc (a ++ dot) b (dot ++ s),
            append_assoc a dot (b ++ (dot ++ s)),
            sym t,
            append-nil s,
          )
          refl,
    )
verified_parts y now c secret token (a ∷ b ∷ s ∷ t ∷ parts) j h = cc

-- A token is read only if it is signed under the key.
pub parse_session_jwt-IsSigned :
    (y : Jwt) (now : ℕ) (c : SessionClaims) (secret token : Bytes)
    → parse_session_jwt y now token secret ≡ some c
    → IsSigned y secret token
unfolding parse_session_jwt
parse_session_jwt-IsSigned y now c secret token h =
    verified_parts y now c secret token (split_dots token) (joined-split_dots token) h
