-- ===== src/Chat.antt =====
-- services/chat-service/cmd/server.go: sending, fan-out, history and message status.
pub mod Recipients
pub mod Backend
pub mod Delivery
pub mod Send
pub mod Status
pub mod History
pub mod Fanout
pub mod Service
