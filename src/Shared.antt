-- ===== src/Shared.antt =====
-- src/shared: response codes, error classes, the standard replies, the error log.
pub mod ResponseCodes
pub mod Errors
pub mod Reply
pub mod AddErrorHelper
pub mod Catch
pub mod Text
pub mod Decimal
pub mod Query
pub mod Channels
pub mod QueryText
pub mod Tests
pub mod Consistent
