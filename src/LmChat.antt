-- ===== src/LmChat.antt =====
-- packages/databricks-vscode/src/lm-chat/unityGatewayResponses.ts: chat messages to a request of the
-- Responses API, and its event stream to chat response parts.
pub mod Json
pub mod Stream
pub mod Meaning
pub mod Replies
pub mod Request
pub mod Events
mod Tests
