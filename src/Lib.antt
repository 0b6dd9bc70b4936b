-- ===== src/Lib.antt =====
-- A mock Salesforce server: a query language, a record store and OAuth, served over HTTP.
--
-- A query (SOQL) is a text. The lexer makes tokens of it, the parser a syntax tree, and the executor
-- turns the tree's condition into a filter that it runs over the records of the store. The REST handlers read and write the records of
-- the store. Requests pass a guard, which accepts the tokens that the OAuth endpoint has put into a table of tokens; the
-- endpoint exchanges passwords, refresh tokens and one-time authorization codes for tokens. Codes come
-- from the authorization endpoint. The admin endpoints keep users, and mint tokens for them that go
-- into the same table.
--
-- The files:
-- - Base and its children: bytes, lists over the native numbers, association lists for Go's maps,
--   integers, the conditional. A Go string is its list of bytes.
-- - Value: Go's `any` in records and query literals (internal/store/store.go and the types that
--   internal/soql puts in). A map is a list of fields; a float64 is its bit pattern.
-- - Soql/Token, Soql/Lexer: internal/soql/token.go and internal/soql/lexer.go. The lexer's pointer
--   receiver is a record that each function returns; NextToken is `next_token`.
-- - Soql/Ast: internal/soql/ast.go. A pointer that may be nil is an option.
-- - Soql/Literals, Soql/Dates: internal/soql/date_literal.go, and strconv.Atoi as the parser uses it.
-- - Soql/Parser: internal/soql/parser.go, function by function, in a monad of the parser's state with
--   errors; the parser of floating-point numbers is a parameter.
-- - Soql/Executor: internal/soql/executor.go, its filters and comparisons (Compare, Filter), the test
--   of the sort (Order), OFFSET and LIMIT (Window), projection (Project), child subqueries
--   (SubQueries), the aggregates of internal/soql/aggregate.go (Aggregate and its children), and
--   Execute with the virtual objects of internal/soql/virtual.go (Execute). Formatting, lower case, floats, sort.Slice, the calendar and the clock are the
--   record `Runtime`; a panic is `none`.
-- - Soql/Query: internal/handlers/query.go.
-- - Schema and its children: internal/schema. The registry's two variables are a record; the built-in
--   descriptions are data (Builtin).
-- - Store: internal/store/memory.go. Each method takes the store and gives the one that it leaves; its
--   lock makes it one step. Random bytes and the order of a map's walk are arguments.
-- - Rest and its children: internal/handlers/sobject.go; the table of descriptions is data
--   (Describe and its children).
-- - Auth/Tokens, Auth/Guard: internal/server/middleware/auth.go.
-- - Auth/Codes: internal/handlers/authcodes.go.
-- - Auth/Endpoint: internal/handlers/oauth.go and the allowlist of internal/config/config.go. Hashes
--   are the record `Crypto`; the clock in nanoseconds and random identifiers are arguments.
-- - Auth/Authorize: internal/handlers/authorize.go, up to the pages and the encoding of a redirect.
-- - Auth/Sessions and its children: internal/server/middleware/jwt.go and falcon_return.go, and the
--   login form of auth.go. JSON, base64, the HMAC and url.Parse are the records `Jwt` and `Urls`.
-- - Users and its children: internal/users, in memory. Hashes, base64 and map walks are the record
--   `Packages`; random bytes and the clock are arguments.
-- - Admin and its children: internal/handlers/admin_users.go, over Users and Auth/Tokens.
--
-- The parser's loops and its recursion run on fuel, which starts above twice the number of bytes that
-- are left; each round takes a token, so the fuel is never used up. The lexer's loops run on the
-- number of bytes left.
--
-- Not modelled: sort.Slice, which is a parameter; the SQLite stores, HTTP routing, pages, generators and clients of language models, which are input
-- and output. Times in the token table are seconds, and in the stores of codes and of users
-- nanoseconds, as natural numbers. Error messages keep their codes only, and replies of the admin
-- endpoints their status.
pub mod Base
pub mod Value
pub mod Schema
pub mod Soql
pub mod Store
pub mod Rest
pub mod Auth
pub mod Users
pub mod Admin
