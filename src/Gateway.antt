-- ===== src/Gateway.antt =====
-- services/api-gateway/internal/gateway: the HTTP handlers and the websocket hub.
pub mod Http
pub mod Groups
pub mod Hub
pub mod Lookup
pub mod Proxies
pub mod Process
pub mod Router
