-- ===== src/Soql/Executor.antt =====
-- The executor (internal/soql/executor.go): filters, sorting, projection and subqueries.
pub mod Runtime
mod Compare
mod Filter
pub mod Order
pub mod Window
pub mod Project
pub mod SubQueries
pub mod Children
pub mod Like
pub mod Filters
pub mod Aggregate
pub mod Execute
unfoldable pub use Runtime.*
unfoldable pub use Compare.*
unfoldable pub use Filter.*
