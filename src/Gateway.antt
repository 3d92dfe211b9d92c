-- ===== src/Gateway.antt =====
-- pkg/gateway: the OpenAI-shaped proxy, its pricing, payment, routing and control handlers.
pub mod Records
pub mod Pricing
pub mod Proxy
pub mod Answers
pub mod Paywall
pub mod Control
pub mod Auth
pub mod Sessions
pub mod Routing
pub mod Ranking
pub mod Messages
pub mod Chat
pub mod Streaming
pub mod Models
pub mod Cors
mod Tests
