-- ===== src/Store.antt =====
-- The in-memory record store (internal/store/memory.go). Methods take the store and return the one
-- that they leave; the lock makes each of them one step.
mod Types
mod Indexing
mod Methods
pub mod Records
pub mod Entries
pub mod Index
pub mod Runs
pub mod Queries
mod Tests
unfoldable pub use Types.*
unfoldable pub use Indexing.*
unfoldable pub use Methods.*
