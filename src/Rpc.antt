-- ===== src/Rpc.antt =====
-- src/src/rpc: the interface of the RPC clients, and the clients themselves.

pub mod Error
pub mod Action
pub mod Tungstenite
pub mod Ws
pub mod Subscribing
pub mod Subscription
pub mod Delivery
pub mod WsClient
pub mod Jsonrpsee
pub mod Attempts
pub mod Reading
