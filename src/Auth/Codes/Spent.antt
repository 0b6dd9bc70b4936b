-- ===== src/Auth/Codes/Spent.antt =====
-- Codes over sequences of steps (internal/handlers/authcodes.go).
use mock_salesforce.Base.{
  ℕ, ◌+◌, ◌≡◌, refl, sym, ap, ◌∙◌, ◌⊎◌, inl, inr, Bool-cases, true, false, Option, none, some,
  Bytes, str_eq_iff, str_eq_refl, lookup, insert, lookup-insert, arith, ltb, if◌then◌else◌,
}
use mock_salesforce.Auth.Codes.{AuthCode, Codes, issue, consume, lookup_code, auth_code_ttl}

-- What may happen to the store: codes that it does not hold are issued, and any code is tried.
pub data Step : Codes → Codes → Type 0 where
  issued :
      {s : Codes} (fresh : Bytes) (now : ℕ) (client uri scope challenge method user : Bytes)
      → lookup_code fresh s ≡ none
      → Step s (issue fresh now client uri scope challenge method user s).1
  tried : {s : Codes} (now : ℕ) (code : Bytes) → Step s (consume now code s).1

pub data Reaches : Codes → Codes → Type 0 where
  here : {s : Codes} → Reaches s s
  then' : {s t u : Codes} → Step s t → Reaches t u → Reaches s u

abbrev IsSpent : Bytes → Codes → Type 0
IsSpent code s = (ac : AuthCode) × (lookup code s ≡ some ac) × (ac.used ≡ true)

issued-IsSpent :
    (code fresh : Bytes) (ac : AuthCode) (s : Codes)
    → lookup fresh s ≡ none
    → IsSpent code s
    → IsSpent code (insert fresh ac s)
issued-IsSpent code fresh ac s n (old, e, u) =
    (old, ground (arith, str_eq_iff fresh code, lookup-insert fresh code ac s), u)

abbrev pub marked : AuthCode → AuthCode
marked ac = record ac { used = true }

-- What `Consume` does when it gives the code out.
abbrev IsConsumed : ℕ → Bytes → Codes → AuthCode → Option AuthCode × Codes → Type 0
IsConsumed now code s ac r =
    (lookup code s ≡ some ac)
    × (ac.used ≡ false)
    × (ltb ac.expires_at now ≡ false)
    × (r ≡ (some (marked ac), insert code (marked ac) s))

consume_found :
    (now : ℕ) (code : Bytes) (s : Codes) (o : Option AuthCode)
    → lookup code s ≡ o
    → (consume now code s ≡ (none, s))
      ⊎ ((ac : AuthCode) × IsConsumed now code s ac (consume now code s))
unfolding consume
consume_found now code s none e = inl (rw (e, consume) refl)
consume_found now code s (some ac) e = elim (Bool-cases ac.used) [
  | inl u ↦ inl (rw (e, consume, u) refl)
  | inr u ↦ elim (Bool-cases (ltb ac.expires_at now)) [
    | inl x ↦ inl (rw (e, consume, u, x) refl)
    | inr x ↦ inr (ac, (e, u, x, rw (e, consume, u, x) refl))
  ]
]

consume_cases :
    (now : ℕ) (code : Bytes) (s : Codes)
    → (consume now code s ≡ (none, s))
      ⊎ ((ac : AuthCode) × IsConsumed now code s ac (consume now code s))
consume_cases now code s = consume_found now code s (lookup code s) refl

tried-IsSpent :
    (now : ℕ) (code other : Bytes) (s : Codes)
    → IsSpent code s
    → IsSpent code (consume now other s).1
tried-IsSpent now code other s (old, e, u) = elim (consume_cases now other s) [
  | inl h ↦ rw h (old, e, u)
  | inr (ac, (f, v, x, h)) ↦
      rw h (old, ground (arith, str_eq_iff other code, lookup-insert other code (marked ac) s), u)
]

IsSpent-step : (code : Bytes) {s t : Codes} → Step s t → IsSpent code s → IsSpent code t
unfolding issue lookup_code
IsSpent-step code (issued {s} fresh now client uri scope challenge method user n) h =
    issued-IsSpent code fresh _ s n h
IsSpent-step code (tried {s} now other) h = tried-IsSpent now code other s h

IsSpent-Reaches : (code : Bytes) {s t : Codes} → Reaches s t → IsSpent code s → IsSpent code t
IsSpent-Reaches code here h = h
IsSpent-Reaches code (then' st r) h = IsSpent-Reaches code r (IsSpent-step code st h)

spent_refused :
    (now : ℕ) (code : Bytes) (s : Codes) → IsSpent code s → (consume now code s).0 ≡ none
unfolding consume
spent_refused now code s (ac, e, u) = rw (e, consume, u) refl

consumed-IsSpent :
    (now : ℕ) (code : Bytes) (s : Codes) (ac : AuthCode)
    → (consume now code s).0 ≡ some ac
    → IsSpent code (consume now code s).1
consumed-IsSpent now code s ac h = elim (consume_cases now code s) [
  | inl e ↦ let q : none ≡ some ac = sym (ap (λ p. p.0) e) ∙ h in ground arith
  | inr (old, (f, v, x, e)) ↦ rw e (
    marked old,
    ground (arith, str_eq_iff code code, lookup-insert code code (marked old) s),
    refl,
  )
]

-- Once `Consume` has given a code out, it never gives that code out again, whatever codes are
-- issued and tried in between, if no code is issued that the store still holds.
pub consume_once :
    (now later : ℕ) (code : Bytes) (s t : Codes) (ac : AuthCode)
    → (consume now code s).0 ≡ some ac
    → Reaches (consume now code s).1 t
    → (consume later code t).0 ≡ none
consume_once now later code s t ac h r =
    spent_refused later code t (IsSpent-Reaches code r (consumed-IsSpent now code s ac h))

-- A code that is issued can be consumed from then until ten minutes later, and not after; what
-- `Consume` gives is what was issued, marked as used.
pub consume-issue :
    (fresh : Bytes) (now later : ℕ) (client uri scope challenge method user : Bytes) (s : Codes)
    → (consume later fresh (issue fresh now client uri scope challenge method user s).1).0 ≡ (
        if ltb (now + auth_code_ttl) later
        then none
        else some (marked (issue fresh now client uri scope challenge method user s).0))
unfolding issue consume
consume-issue fresh now later client uri scope challenge method user s =
    rw (lookup-insert fresh fresh _ s, str_eq_refl fresh, consume) (ground arith)
