-- ===== src/Users.antt =====
-- Users and their tokens in memory (internal/users/store.go, memory.go, ids.go, seed.go). Each method
-- holds the lock for its whole body, so it is one step on the store; the clock, in nanoseconds, and the
-- random bytes are arguments, and a `time.Time` that is zero is `none`.
mod Types
mod Methods
pub mod Names
pub mod Runs
pub mod Passwords
unfoldable pub use Types.*
unfoldable pub use Methods.*
