-- ===== src/Order.antt =====
-- src/services/order: placing an order (reserve, store, pay, confirm) and cancelling it.
pub mod Repository
pub mod Payment
pub mod StockQueue
pub mod World
pub mod Messaging
pub mod Service
pub mod Frames
pub mod Settle
pub mod Create
pub mod Cancel
pub mod Refused
pub mod Runs
pub mod Queues
pub mod Controller
pub mod Replies
pub mod Tests
