-- ===== src/Gateway.antt =====
-- src/services/api-gateway: accounts, tokens and who may do what.
pub mod Tables
pub mod Parties
pub mod Auth
pub mod Calls
pub mod Login
pub mod Register
pub mod Refresh
pub mod Google
pub mod Access
pub mod Uuid
pub mod Services
pub mod Hooks
pub mod Products
pub mod Categories
pub mod Handled
pub mod Writes
pub mod Proxy
pub mod Discovery
pub mod Orders
pub mod OrderReplies
pub mod Retries
pub mod Twice
pub mod ServiceTests
pub mod RouteTests
pub mod Routes
pub mod Replies
pub mod Memory
pub mod Tests
