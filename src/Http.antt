-- ===== src/Http.antt =====
-- Several services together: all routes that answer by src/shared/middleware/responseEnhancer.ts, a
-- route of the gateway with the service behind it, and the orders with the mails about them.
pub mod Routes
pub mod Link
pub mod Arrives
pub mod Shown
pub mod Mailed
pub mod Tests
