-- ===== src/Auth/Endpoint/Forms.antt =====
-- The configuration, the requests and the replies of the token endpoint, and what it uses of Go's
-- crypto packages.
use mock_salesforce.Base.{
  ℕ, Bool, true, Option, none, some, List, [], ◌∷◌, Bytes, str_eq, Assoc, lookup, any,
}
use mock_salesforce.Auth.Tokens.{Tokens}
use mock_salesforce.Auth.Codes.{Codes}

pub record Config : Type 0 where
  pub mock_client_id : Bytes
  pub mock_client_secret : Bytes
  pub mock_users : Assoc Bytes
  pub mock_username : Bytes
  pub mock_password : Bytes
  pub mock_redirect_uris : List Bytes
  pub mock_refresh_rotation : Bool

-- `digest s` is the raw URL encoding in base64 of the SHA-256 sum of s, and `short_digest` that of
-- its first 24 bytes; `decimal` prints a number, and `user_id` is userIDFromIdentity of identityURL.
pub record Crypto : Type 0 where
  pub digest : Bytes → Bytes
  pub short_digest : Bytes → Bytes
  pub decimal : ℕ → Bytes
  pub name_digest : Bytes → Bytes

-- A request whose form parses: the pair of the Basic header, and the parameters of the body and of
-- the query.
pub record Request : Type 0 where
  pub basic : Option (Bytes × Bytes)
  pub post : Assoc Bytes
  pub query : Assoc Bytes

abbrev pub or_blank : Option Bytes → Bytes
or_blank none = []
or_blank (some s) = s

-- `PostFormValue`, and `FormValue`, for which the body comes first
unfoldable pub post_value : Request → Bytes → Bytes
unfolding lookup
post_value r k = or_blank (lookup k r.post)

unfoldable pub form_value : Request → Bytes → Bytes
unfolding lookup
form_value r k = elim (lookup k r.post) [ some v ↦ v | none ↦ or_blank (lookup k r.query) ]

-- `r.URL.Query().Get(k)`
unfoldable pub query_value : Request → Bytes → Bytes
unfolding lookup
query_value r k = or_blank (lookup k r.query)

-- A reply: a status and an error code, the tokens that are issued (the refresh token may be empty),
-- or an empty body.
pub data Reply : Type 0 where
  failed : ℕ → Bytes → Reply
  granted : Bytes → Bytes → Reply
  done : Reply

-- The table of tokens and the store of codes; a handler without codes has none.
pub record State : Type 0 where
  pub tokens : Tokens
  pub auth_codes : Option Codes

-- `Config.IsRedirectURIAllowed` (internal/config/config.go)
unfoldable pub is_redirect_uri_allowed : Config → Bytes → Bool
unfolding str_eq
is_redirect_uri_allowed c uri = elim c.mock_redirect_uris [
  | [] ↦ true
  | _ ∷ _ ↦ any (λ allowed. str_eq allowed uri) c.mock_redirect_uris
]
