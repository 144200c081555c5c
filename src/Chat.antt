-- ===== src/Chat.antt =====
-- src/agent/chat.controller.ts: threads, the sending of a message, and cancellation.
pub mod Transaction
pub mod Handlers
pub mod Views
pub mod Charge
pub mod Access
pub mod Delete
pub mod Sending
