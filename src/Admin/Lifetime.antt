-- ===== src/Admin/Lifetime.antt =====
-- The lifetime of a minted token (internal/handlers/admin_users.go, internal/users/memory.go).
use mock_salesforce.Base.{
  ℕ, zero, suc, true, false, ◌+◌, ◌-◌, ◌*◌, ◌^◌, ◌<◌, ◌≤◌, ◌≡◌, refl, none, some, arith, ltb,
  if◌then◌else◌,
}
use Prim.Native.Nat.{◌%◌}
use mock_salesforce.Base.Int.{ℤ, pos, negsuc}
use mock_salesforce.Users.{expiry}

-- The 64 bits of a number of seconds as nanoseconds.
unfoldable pub nanoseconds : ℤ → ℕ
nanoseconds (pos n) = n * 1000000000 % 2 ^ 64
nanoseconds (negsuc n) = (2 ^ 64 - suc n * 1000000000 % 2 ^ 64) % 2 ^ 64

-- The integer that 64 bits stand for.
unfoldable pub signed : ℕ → ℤ
signed m = if ltb m (2 ^ 63) then pos m else negsuc (2 ^ 64 - 1 - m)

-- `time.Duration(n) * time.Second`
unfoldable pub seconds : ℤ → ℤ
unfolding nanoseconds signed
seconds n = signed (nanoseconds n)

expiry_pos : (now m : ℕ) → 0 < m → expiry now (pos m) ≡ some (now + m)
expiry_pos now zero h = absurd (omega arith)
expiry_pos now (suc m) h = refl

-- A lifetime from 1 to 9223372036 seconds ends that long after the token is made. A longer one, up to
-- 18446744073 seconds, overflows to a negative duration, and the token never expires.
pub expiry-seconds :
    (now n : ℕ)
    → ((0 < n) → (n ≤ 9223372036) → expiry now (seconds (pos n)) ≡ some (now + n * 1000000000))
      × ((9223372036 < n) → (n ≤ 18446744073) → expiry now (seconds (pos n)) ≡ none)
unfolding seconds nanoseconds signed
expiry-seconds now n = (
  λ lo hi.
      let z : n * 1000000000 % 18446744073709551616 ≡ n * 1000000000 = omega arith in
      let b : ltb (n * 1000000000) 9223372036854775808 ≡ true = ground arith in
      rw (z, b) (expiry_pos now (n * 1000000000) (omega arith)),
  λ lo hi.
      let z : n * 1000000000 % 18446744073709551616 ≡ n * 1000000000 = omega arith in
      let b : ltb (n * 1000000000) 9223372036854775808 ≡ false = ground arith in rw (z, b) refl,
)
