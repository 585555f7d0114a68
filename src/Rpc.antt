-- ===== src/Rpc.antt =====
-- src/shared/messaging/rabbitmq.client.ts: the client that every service reaches the broker with,
-- its pending RPC calls, and the loops that consume messages.
pub mod Client
pub mod Counts
pub mod Calls
pub mod Once
pub mod Wire
pub mod Server
pub mod Answers
pub mod Tests
