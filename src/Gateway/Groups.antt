-- ===== src/Gateway/Groups.antt =====
-- The group endpoints of services/api-gateway/internal/gateway/server.go.
pub mod Access
pub mod Members
pub mod Admins
pub mod Create
pub mod Leave
pub mod Invites
pub mod Details
pub mod Governed
pub mod Denied
pub mod Atomic
pub mod Removal
pub mod Departure
pub mod Governance
pub mod Reads
