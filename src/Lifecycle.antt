-- ===== src/Lifecycle.antt =====
-- The tickets table under every operation that writes it: ticketing/ticketing.service.ts and
-- gate-verification/gate-verification.service.ts.
pub mod Order
pub mod Tickets
pub mod Gate
pub mod Entry
pub mod Admission
