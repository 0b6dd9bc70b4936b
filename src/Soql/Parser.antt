-- ===== src/Soql/Parser.antt =====
-- The parser (internal/soql/parser.go): recursive descent over the lexer, one token ahead.
mod State
mod Values
mod Fields
mod Conditions
mod Statement
pub mod Measure
mod Clauses
pub mod Totality
unfoldable pub use State.*
unfoldable pub use Values.*
unfoldable pub use Fields.*
unfoldable pub use Conditions.*
unfoldable pub use Statement.*
