-- ===== src/Auth/Endpoint.antt =====
-- The token endpoint (internal/handlers/oauth.go).
mod Forms
mod Clients
mod Issue
mod Grants
pub mod Exchange
pub mod Rotation
pub mod Revoked
mod Introspect
unfoldable pub use Forms.*
unfoldable pub use Clients.*
unfoldable pub use Issue.*
unfoldable pub use Grants.*
unfoldable pub use Introspect.*
