-- ===== src/Catalog.antt =====
-- src/services/product-catalog: products behind a cache.
pub mod Tables
pub mod Cache
pub mod Products
pub mod Pages
pub mod Coherence
pub mod Writes
pub mod Lists
pub mod Rows
pub mod Categories
pub mod Messaging
pub mod Answers
pub mod CategoryController
pub mod CategoryReplies
pub mod Controller
pub mod Replies
pub mod Memory
pub mod Tests
