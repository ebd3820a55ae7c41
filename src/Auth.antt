-- ===== src/Auth.antt =====
-- Who a request comes from: pkg/middleware/middleware.go for the gateway, and the middleware of
-- internal/auth.
pub mod Bearer
pub mod Jwks
pub mod Token
pub mod Strict
