-- ===== src/Chat.antt =====
-- backend/apps/chat: conversations, their history, the AI client and the WebSocket consumer.
pub mod Tokens
pub mod History
pub mod Pages
pub mod Conversations
pub mod Client
pub mod Protocol
pub mod Session
pub mod Exchange
pub mod Summary
pub mod Listing
pub mod Endpoints
pub mod Responses
pub mod Consumer
pub mod Middleware
pub mod Awaits
pub mod Turns
mod Tests
