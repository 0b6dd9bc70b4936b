-- ===== src/Auth.antt =====
-- Authentication: the token table and the guard of protected routes
-- (internal/server/middleware/auth.go), authorization codes (internal/handlers/authcodes.go) and
-- the token endpoint (internal/handlers/oauth.go).
pub mod Tokens
pub mod Codes
pub mod Guard
pub mod Endpoint
pub mod Authorize
pub mod Sessions
mod Tests
