-- ===== src/Auth/Codes.antt =====
-- One-time authorization codes (internal/handlers/authcodes.go). The random code and the clock, in
-- nanoseconds, are arguments; the lock makes each method one step.
pub mod Spent
use mock_salesforce.Base.{
  ℕ, ◌+◌, ◌*◌, Bool, true, false, Option, none, some, Bytes, Assoc, lookup, insert, ltb,
  if◌then◌else◌,
}

pub record AuthCode : Type 0 where
  pub code : Bytes
  pub client_id : Bytes
  pub redirect_uri : Bytes
  pub scope : Bytes
  pub code_challenge : Bytes
  pub code_challenge_method : Bytes
  pub username : Bytes
  pub issued_at : ℕ
  pub expires_at : ℕ
  pub used : Bool

abbrev pub Codes : Type 0
Codes = Assoc AuthCode

abbrev pub auth_code_ttl : ℕ
auth_code_ttl = 10 * 60 * 1000000000

-- `Issue`, with the code that generateAuthCode gives.
unfoldable pub issue :
    Bytes → ℕ → Bytes → Bytes → Bytes → Bytes → Bytes → Bytes → Codes → AuthCode × Codes
unfolding insert
issue fresh now client_id redirect_uri scope challenge method username s =
    let ac : AuthCode = record {
      code = fresh;
      client_id = client_id;
      redirect_uri = redirect_uri;
      scope = scope;
      code_challenge = challenge;
      code_challenge_method = method;
      username = username;
      issued_at = now;
      expires_at = now + auth_code_ttl;
      used = false;
    } in
    (ac, insert fresh ac s)

-- `Consume`: the entry, marked, or nothing.
unfoldable pub consume : ℕ → Bytes → Codes → Option AuthCode × Codes
unfolding lookup insert
consume now code s = elim (lookup code s) [
  | none ↦ (none, s)
  | some ac ↦
      if ac.used
      then (none, s)
      else if ltb ac.expires_at now
      then (none, s)
      else (some (record ac { used = true }), insert code (record ac { used = true }) s)
]

-- `Lookup`
unfoldable pub lookup_code : Bytes → Codes → Option AuthCode
unfolding lookup
lookup_code code s = lookup code s
