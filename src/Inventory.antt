-- ===== src/Inventory.antt =====
-- src/services/inventory: the stock of each product, its reservations, and the requests for them.
pub mod Repository
pub mod Service
pub mod Changes
pub mod Release
pub mod Room
pub mod Reserve
pub mod Total
pub mod Bounds
pub mod Controller
pub mod Messaging
pub mod Replies
pub mod Race
pub mod Tests
