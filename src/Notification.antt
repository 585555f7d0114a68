-- ===== src/Notification.antt =====
-- src/services/notification: mails and messages to browsers about orders and stock.
pub mod Sockets
pub mod Rooms
pub mod Heard
pub mod Email
pub mod Consumers
pub mod Workers
pub mod Grown
pub mod Notified
pub mod Bindings
pub mod Delivered
pub mod Memory
pub mod Tests
