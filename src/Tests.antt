-- ===== src/Tests.antt =====
-- The theorems applied at concrete inputs.
mod Groups
mod Chat
mod Hub
mod Services
mod Failures
mod Requests
mod Auth
mod Loops
mod Settings
mod Sockets
mod Startup
