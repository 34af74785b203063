-- ===== src/Api.antt =====
-- The controllers of src/: each endpoint with its guards and pipes, before the service that it calls.
pub mod Http
pub mod Dto
pub mod Tickets
pub mod Gate
pub mod Identity
pub mod Lottery
pub mod Seats
pub mod Events
pub mod Auth
pub mod Audit
pub mod Notifications
pub mod Health
pub mod Routes
pub mod Access
pub mod Guarding
pub mod Effects
pub mod Views
pub mod Owners
pub mod Roles
pub mod Unique
pub mod Login
pub mod Seating
pub mod Life
pub mod Notices
pub mod Draws
pub mod Sample
mod Tests
