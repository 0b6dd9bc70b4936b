-- ===== src/Soql.antt =====
-- The query language (internal/soql): tokens, lexer, syntax and parser.
pub mod Token
pub mod Lexer
pub mod Ast
pub mod Literals
pub mod Dates
pub mod Parser
pub mod Executor
pub mod Query
mod Tests
